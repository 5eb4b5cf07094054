-- ===== src/Generate/Standing.antt =====
-- What is true of a run at each of its stages as long as the database answers and the starts come
-- one after the other.
use dayseam.Prelude.{
  ℕ, ◌≡◌, ◌⊎◌, sym, ◌∙◌, ap, arith, Bool, true, false, List, Option, none, some, nat_eqb,
  nat_eqb_iff, Bool-cases, inl, inr,
}
use dayseam.Prelude.Maps.{lookup}
use dayseam.Runs.{SyncRun}
use dayseam.SyncRuns.{get}
use dayseam.SyncRuns.Standing.{is_known, is_closed}
use dayseam.Generate.{InFlight, in_flight_key_eq, is_ours}
use dayseam.Generate.World.{
  Stage, idle, swapped, signalled, rejected, recorded, spawned, fetched, stopped, cancelling,
  collected, stored, cleared, drafted, failing, ending, over, GenerateRequest,
}
use dayseam.Generate.Flights.{is_live}

-- Whether a run is in `start_with_trigger`.
abbrev pub is_starting : {V A E D : Type 0} → Stage V A E D → Bool
is_starting (swapped prior) = true
is_starting (signalled prior) = true
is_starting rejected = true
is_starting (recorded prior) = true
is_starting _ = false

-- The older run whose row a run has yet to write.
abbrev pub owes : {V A E D : Type 0} → Stage V A E D → Option ℕ
owes (swapped prior) = prior
owes (signalled prior) = prior
owes (recorded prior) = prior
owes _ = none

abbrev pub Known : {E : Type 0} → List (SyncRun E) → ℕ → Type 0
Known rows j = is_known (get j rows) ≡ true

-- The row of a run is at its end, or a newer run is about to write it.
abbrev pub Owed : {V A E D : Type 0} → List (SyncRun E) → (ℕ → Stage V A E D) → ℕ → Type 0
Owed rows stage j = (is_closed (get j rows) ≡ true) ⊎ ((b : ℕ) × (owes (stage b) ≡ some j))

abbrev pub PriorKnown : {E : Type 0} → List (SyncRun E) → Option ℕ → Type 0
PriorKnown rows none = Unit
PriorKnown rows (some prior) = Known rows prior

abbrev pub Held : (ℕ → GenerateRequest) → InFlight → ℕ → Type 0
Held requests in_flight j = is_ours j (lookup (requests j).key in_flight) ≡ true

module _ {V A E D : Type 0} (requests : ℕ → GenerateRequest) where
  abbrev pub Fine : InFlight → List (SyncRun E) → (ℕ → Stage V A E D) → ℕ → Stage V A E D → Type 0
  Fine in_flight rows stage j idle = Unit
  Fine in_flight rows stage j (swapped prior) =
      (is_known (get j rows) ≡ false) × (Held requests in_flight j × PriorKnown rows prior)
  Fine in_flight rows stage j (signalled prior) =
      (is_known (get j rows) ≡ false) × (Held requests in_flight j × PriorKnown rows prior)
  Fine in_flight rows stage j rejected = ⊥
  Fine in_flight rows stage j (recorded prior) =
      Known rows j × ((Held requests in_flight j ⊎ Owed rows stage j) × PriorKnown rows prior)
  Fine in_flight rows stage j (cancelling per_source (some newer)) =
      Known rows j × Owed rows stage j
  Fine in_flight rows stage j (ending outcome) = Known rows j × Owed rows stage j
  Fine in_flight rows stage j (over outcome) = Known rows j × Owed rows stage j
  Fine in_flight rows stage j _ = Known rows j × (Held requests in_flight j ⊎ Owed rows stage j)

  abbrev pub AllFine : InFlight → List (SyncRun E) → (ℕ → Stage V A E D) → Type 0
  AllFine in_flight rows stage = (j : ℕ) → Fine in_flight rows stage j (stage j)

  -- What a step of the run `id` has to leave alone for the others to stay fine.
  pub record Spares (id : ℕ) (in_flight later : InFlight) (rows written : List (SyncRun E))
      (stage moved : ℕ → Stage V A E D) : Type 0 where
    pub same : (j : ℕ) → nat_eqb j id ≡ false → moved j ≡ stage j
    pub known : (j : ℕ) → Known rows j → Known written j
    pub unknown :
        (j : ℕ)
        → nat_eqb j id ≡ false
        → is_known (get j rows) ≡ false
        → is_known (get j written) ≡ false
    pub closed : (j : ℕ) → is_closed (get j rows) ≡ true → is_closed (get j written) ≡ true
    pub held :
        (j : ℕ)
        → nat_eqb j id ≡ false
        → Held requests in_flight j
        → Held requests later j ⊎ ((is_starting (stage j) ≡ false) × Owed written moved j)
    pub pays : (j : ℕ) → owes (stage id) ≡ some j → Owed written moved j

  pub spared-Known :
      {id : ℕ} {m m' : InFlight} {rows rows' : List (SyncRun E)} {stage stage' : ℕ → Stage V A E D}
      → Spares id m m' rows rows' stage stage'
      → (prior : Option ℕ) → PriorKnown rows prior
      → PriorKnown rows' prior
  spared-Known s none known = tt
  spared-Known s (some prior) known = s.known prior known

  pub spared-Owed :
      {id : ℕ} {m m' : InFlight} {rows rows' : List (SyncRun E)} {stage stage' : ℕ → Stage V A E D}
      → Spares id m m' rows rows' stage stage'
      → (j : ℕ) → Owed rows stage j
      → Owed rows' stage' j
  spared-Owed s j (inl ended) = inl (s.closed j ended)
  spared-Owed {id = id} s j (inr (b, owing)) = elim (Bool-cases (nat_eqb b id)) [
    | inl ours ↦ s.pays j (rw (sym ((nat_eqb_iff b id).0 ours)) owing)
    | inr others ↦ inr (b, ap owes (s.same b others) ∙ owing)
  ]

  spared-either :
      {id : ℕ} {m m' : InFlight} {rows rows' : List (SyncRun E)} {stage stage' : ℕ → Stage V A E D}
      → Spares id m m' rows rows' stage stage'
      → (j : ℕ) → nat_eqb j id ≡ false
      → Held requests m j ⊎ Owed rows stage j
      → Held requests m' j ⊎ Owed rows' stage' j
  spared-either s j apart (inr owed) = inr (spared-Owed s j owed)
  spared-either s j apart (inl held) = elim (s.held j apart held) [
    | inl holds ↦ inl holds
    | inr passes ↦ inr passes.1
  ]

  spared-Held :
      {id : ℕ} {m m' : InFlight} {rows rows' : List (SyncRun E)} {stage stage' : ℕ → Stage V A E D}
      → Spares id m m' rows rows' stage stage'
      → (j : ℕ) → nat_eqb j id ≡ false
      → is_starting (stage j) ≡ true
      → Held requests m j
      → Held requests m' j
  spared-Held s j apart starts held = elim (s.held j apart held) [
    | inl holds ↦ holds
    | inr passes ↦ ground arith
  ]

  -- A step of one run keeps the others fine.
  pub spared-Fine :
      {id : ℕ} {m m' : InFlight} {rows rows' : List (SyncRun E)} {stage stage' : ℕ → Stage V A E D}
      → Spares id m m' rows rows' stage stage'
      → (j : ℕ) → nat_eqb j id ≡ false
      → (at : Stage V A E D) → is_starting (stage j) ≡ is_starting at
      → Fine m rows stage j at
      → Fine m' rows' stage' j at
  spared-Fine s j apart idle is fine = tt
  spared-Fine s j apart (swapped prior) is (fresh, (held, known)) =
      (s.unknown j apart fresh, (spared-Held s j apart is held, spared-Known s prior known))
  spared-Fine s j apart (signalled prior) is (fresh, (held, known)) =
      (s.unknown j apart fresh, (spared-Held s j apart is held, spared-Known s prior known))
  spared-Fine s j apart rejected is fine = absurd fine
  spared-Fine s j apart (recorded prior) is (row, (held, known)) =
      (s.known j row, (spared-either s j apart held, spared-Known s prior known))
  spared-Fine s j apart (cancelling per_source (some newer)) is (row, owed) =
      (s.known j row, spared-Owed s j owed)
  spared-Fine s j apart (ending outcome) is (row, owed) = (s.known j row, spared-Owed s j owed)
  spared-Fine s j apart (over outcome) is (row, owed) = (s.known j row, spared-Owed s j owed)
  spared-Fine s j apart spawned is (row, held) = (s.known j row, spared-either s j apart held)
  spared-Fine s j apart (fetched ps) is (row, held) = (s.known j row, spared-either s j apart held)
  spared-Fine s j apart (stopped ps) is (row, held) = (s.known j row, spared-either s j apart held)
  spared-Fine s j apart (cancelling ps none) is (row, held) =
      (s.known j row, spared-either s j apart held)
  spared-Fine s j apart (collected sp) is (row, held) =
      (s.known j row, spared-either s j apart held)
  spared-Fine s j apart (stored sp) is (row, held) = (s.known j row, spared-either s j apart held)
  spared-Fine s j apart (cleared i d ss) is (row, held) =
      (s.known j row, spared-either s j apart held)
  spared-Fine s j apart (drafted i ss) is (row, held) =
      (s.known j row, spared-either s j apart held)
  spared-Fine s j apart (failing ss) is (row, held) = (s.known j row, spared-either s j apart held)

  -- A run that is in flight and started has a row.
  pub live-Known :
      (m : InFlight) (rows : List (SyncRun E)) (stage : ℕ → Stage V A E D) (j : ℕ)
      (at : Stage V A E D)
      → is_live at ≡ true
      → is_starting at ≡ false
      → Fine m rows stage j at
      → Known rows j
  live-Known m rows stage j idle live starts fine = ground arith
  live-Known m rows stage j (swapped prior) live starts fine = ground arith
  live-Known m rows stage j (signalled prior) live starts fine = ground arith
  live-Known m rows stage j rejected live starts fine = absurd fine
  live-Known m rows stage j (recorded prior) live starts (row, held) = row
  live-Known m rows stage j (cancelling per_source (some newer)) live starts (row, owed) = row
  live-Known m rows stage j spawned live starts (row, held) = row
  live-Known m rows stage j (fetched ps) live starts (row, held) = row
  live-Known m rows stage j (stopped ps) live starts (row, held) = row
  live-Known m rows stage j (cancelling ps none) live starts (row, held) = row
  live-Known m rows stage j (collected sp) live starts (row, held) = row
  live-Known m rows stage j (stored sp) live starts (row, held) = row
  live-Known m rows stage j (cleared i d ss) live starts (row, held) = row
  live-Known m rows stage j (drafted i ss) live starts (row, held) = row
  live-Known m rows stage j (failing ss) live starts (row, held) = row
  live-Known m rows stage j (ending o) live starts (row, held) = row
  live-Known m rows stage j (over o) live starts (row, held) = row
