-- ===== src/Generate/Flights.antt =====
-- The map of runs in flight in every world that runs, users and the database lead to.
use dayseam.Prelude.{
  ℕ, ◌≡◌, refl, ◌∙◌, ap, arith, Bool, true, false, List, [], ◌∷◌, Option, none, some, nat_eqb,
  nat_eqb_iff, if◌then◌else◌, Bool-cases, Option-cases, inl, inr,
}
use dayseam.Prelude.Maps.{lookup, remove, lookup-insert, lookup-remove}
use dayseam.Prelude.Results.{Result, ok, err}
use dayseam.Runs.{PerSourceState}
use dayseam.SyncRuns.{DbError}
use dayseam.Generate.{
  InFlightKey, InFlightEntry, InFlight, in_flight_key_eq, swap_in_flight, newer, has_run,
  in_flight_count, is_ours, drop_in_flight_if_ours,
}
use dayseam.Generate.World.{
  Stage, idle, swapped, signalled, rejected, recorded, spawned, fetched, stopped, cancelling,
  collected, stored, cleared, drafted, failing, ending, over, World, Answer, Engine,
  GenerateRequest, either, is_nil,
}
use dayseam.Generate.Machine.{
  Move, resume, cancel, signal, Reach, here, there, move, advance, guard,
}

abbrev pub is_live : {V A E D : Type 0} → Stage V A E D → Bool
is_live idle = false
is_live (over outcome) = false
is_live _ = true

not_ours :
    (id n : ℕ) (found : Option InFlightEntry) → newer id found ≡ some n → is_ours id found ≡ false
not_ours id n none other = refl
not_ours id n (some entry) other = ground arith

live-either :
    {V A E D X : Type 0} (answered : Result DbError X) (after refused : Stage V A E D)
    → is_live after ≡ true
    → is_live refused ≡ true
    → is_live (either answered after refused) ≡ true
unfolding either
live-either (ok done) after refused a r = a
live-either (err e) after refused a r = r

module _ {V A E D : Type 0} (requests : ℕ → GenerateRequest) where
  abbrev pub IsFlying : InFlight → (ℕ → Stage V A E D) → Type 0
  IsFlying in_flight stage =
      (key : InFlightKey) (entry : InFlightEntry)
      → lookup key in_flight ≡ some entry
      → ((requests entry.run_id).key ≡ key) × (is_live (stage entry.run_id) ≡ true)

  abbrev moved : ℕ → Stage V A E D → (ℕ → Stage V A E D) → ℕ → Stage V A E D
  moved id next stage j = if nat_eqb j id then next else stage j

  stays :
      (id : ℕ) (next : Stage V A E D) (in_flight : InFlight) (stage : ℕ → Stage V A E D)
      → is_live next ≡ true
      → IsFlying in_flight stage
      → IsFlying in_flight (moved id next stage)
  stays id next in_flight stage live flying key entry found = ground (arith, flying key entry found)

  swaps :
      (id : ℕ) (next : Stage V A E D) (in_flight : InFlight) (stage : ℕ → Stage V A E D)
      → is_live next ≡ true
      → IsFlying in_flight stage
      → IsFlying (swap_in_flight (requests id).key id in_flight).0 (moved id next stage)
  swaps id next in_flight stage live flying key entry found = ground (
    arith,
    lookup-insert (requests id).key key (record { run_id = id })
        (remove (requests id).key in_flight),
    lookup-remove (requests id).key key in_flight,
    in_flight_key_eq.beq_iff (requests id).key key,
    flying key entry,
  )

  removes :
      (id : ℕ) (next : Stage V A E D) (in_flight : InFlight) (stage : ℕ → Stage V A E D)
      → IsFlying in_flight stage
      → IsFlying (remove (requests id).key in_flight) (moved id next stage)
  removes id next in_flight stage flying key entry found = ground (
    arith,
    lookup-remove (requests id).key key in_flight,
    in_flight_key_eq.beq_iff (requests id).key key,
    flying key entry,
    nat_eqb_iff entry.run_id id,
  )

  -- A run that has no entry may end.
  leaves :
      (id : ℕ) (next : Stage V A E D) (in_flight : InFlight) (stage : ℕ → Stage V A E D)
      → is_ours id (lookup (requests id).key in_flight) ≡ false
      → IsFlying in_flight stage
      → IsFlying in_flight (moved id next stage)
  leaves id next in_flight stage gone flying key entry found = ground (
    arith,
    flying key entry found,
    in_flight_key_eq.beq_iff (requests id).key key,
    nat_eqb_iff entry.run_id id,
  )

  drops :
      (id : ℕ) (after : Stage V A E D) (in_flight : InFlight) (stage : ℕ → Stage V A E D)
      → IsFlying in_flight stage
      → IsFlying (drop_in_flight_if_ours (requests id).key id in_flight) (moved id after stage)
  drops id after in_flight stage flying =
      elim (Bool-cases (is_ours id (lookup (requests id).key in_flight))) [
        | inl ours ↦ rw ours (removes id after in_flight stage flying)
        | inr others ↦ rw others (leaves id after in_flight stage others flying)
      ]

  guards :
      (id draft_id : ℕ) (sources : List (PerSourceState E)) (rendered : Result E D)
      (w : World V A E D) (found : Option InFlightEntry)
      → lookup (requests id).key w.in_flight ≡ found
      → IsFlying w.in_flight w.stage
      → IsFlying
          (guard id draft_id sources (newer id found) rendered w).in_flight
          (guard id draft_id sources (newer id found) rendered w).stage
  guards id draft_id sources (err e) w found is flying = stays id _ w.in_flight w.stage refl flying
  guards id draft_id sources (ok draft) w found is flying = elim (Option-cases (newer id found)) [
    | inl ours ↦ rw ours (stays id _ w.in_flight w.stage refl flying)
    | inr (n, other) ↦
        rw other
          (leaves id _ w.in_flight w.stage (ap (is_ours id) is ∙ not_ours id n found other) flying)
  ]

module _ {V A E D : Type 0} (engine : Engine V A E D) (requests : ℕ → GenerateRequest) where
  abbrev pub IsAloft : World V A E D → Type 0
  IsAloft w = IsFlying requests w.in_flight w.stage

  advance-IsAloft :
      (id : ℕ) (answer : Answer V A E) (at : Stage V A E D) (w : World V A E D)
      → (at ≡ w.stage id)
      → IsAloft w
      → IsAloft (advance engine requests id answer at w)
  unfolding advance
  advance-IsAloft id answer idle w is aloft = swaps requests id _ w.in_flight w.stage refl aloft
  advance-IsAloft id answer (swapped prior) w is aloft =
      stays requests id _ w.in_flight w.stage refl aloft
  advance-IsAloft id answer (signalled prior) w is aloft =
      stays requests id _ w.in_flight w.stage (live-either _ _ _ refl refl) aloft
  advance-IsAloft id answer rejected w is aloft = removes requests id _ w.in_flight w.stage aloft
  advance-IsAloft id answer (recorded none) w is aloft =
      stays requests id _ w.in_flight w.stage refl aloft
  advance-IsAloft id answer (recorded (some prior)) w is aloft =
      stays requests id _ w.in_flight w.stage refl aloft
  advance-IsAloft id answer spawned w is aloft = stays requests id _ w.in_flight w.stage refl aloft
  advance-IsAloft id answer (fetched per_source) w is aloft = elim (Bool-cases (w.fired id)) [
    | inl stops ↦ rw stops (stays requests id _ w.in_flight w.stage refl aloft)
    | inr goes ↦ rw goes (stays requests id _ w.in_flight w.stage refl aloft)
  ]
  advance-IsAloft id answer (stopped per_source) w is aloft =
      stays requests id _ w.in_flight w.stage refl aloft
  advance-IsAloft id answer (cancelling per_source none) w is aloft =
      stays requests id _ w.in_flight w.stage refl aloft
  advance-IsAloft id answer (cancelling per_source (some newer)) w is aloft =
      stays requests id _ w.in_flight w.stage refl aloft
  advance-IsAloft id answer (collected split) w is aloft = elim (Bool-cases (is_nil split.events)) [
    | inl nothing ↦ rw nothing (stays requests id _ w.in_flight w.stage refl aloft)
    | inr events ↦
        rw events (stays requests id _ w.in_flight w.stage (live-either _ _ _ refl refl) aloft)
  ]
  advance-IsAloft id answer (stored split) w is aloft =
      guards requests id answer.draft_id split.per_source_syncrun _ w _ refl aloft
  advance-IsAloft id answer (cleared draft_id draft sources) w is aloft =
      stays requests id _ w.in_flight w.stage (live-either _ _ _ refl refl) aloft
  advance-IsAloft id answer (drafted draft_id sources) w is aloft =
      stays requests id _ w.in_flight w.stage refl aloft
  advance-IsAloft id answer (failing sources) w is aloft =
      stays requests id _ w.in_flight w.stage refl aloft
  advance-IsAloft id answer (ending outcome) w is aloft =
      drops requests id _ w.in_flight w.stage aloft
  advance-IsAloft id answer (over outcome) w is aloft = aloft

  pub move-IsAloft :
      (m : Move V A E) (w : World V A E D) → IsAloft w → IsAloft (move engine requests m w)
  unfolding move
  move-IsAloft (resume id answer) w aloft = advance-IsAloft id answer (w.stage id) w refl aloft
  move-IsAloft (signal id) w aloft = aloft
  move-IsAloft (cancel id) w aloft = elim (Bool-cases (has_run id w.in_flight)) [
    | inl known ↦ rw known aloft
    | inr unknown ↦ rw unknown aloft
  ]

  pub Reach-IsAloft :
      {Allowed : World V A E D → Move V A E → Type 0} {start w : World V A E D}
      → IsAloft start
      → Reach engine requests Allowed start w
      → IsAloft w
  Reach-IsAloft aloft here = aloft
  Reach-IsAloft aloft (there before m allowed) = move-IsAloft m _ (Reach-IsAloft aloft before)

  first_found :
      (key : InFlightKey) (entry : InFlightEntry) (rest : InFlight)
      → lookup key ((key, entry) ∷ rest) ≡ some entry
  unfolding lookup
  first_found key entry rest = rw ((in_flight_key_eq.beq_iff key key).1 refl) refl

  settled :
      (in_flight : InFlight) (stage : ℕ → Stage V A E D)
      → IsFlying requests in_flight stage
      → ((id : ℕ) → is_live (stage id) ≡ false)
      → in_flight_count in_flight ≡ 0
  settled [] stage flying none_live = refl
  settled ((key, entry) ∷ rest) stage flying none_live =
      let live = (flying key entry (first_found key entry rest)).1 in
      let dead = none_live entry.run_id in ground arith

  pub empty-IsAloft : (w : World V A E D) → w.in_flight ≡ [] → IsAloft w
  unfolding lookup
  empty-IsAloft w empty key entry found =
      let missing : lookup key w.in_flight ≡ none = rw empty refl in ground (arith, missing, found)

  -- From a world with no run in flight, whatever moves runs and users make, whether or not the
  -- database answers: whenever no run is under way, `in_flight_count` is 0, so that no run leaves its
  -- entry behind.
  pub in_flight_count-settled :
      {Allowed : World V A E D → Move V A E → Type 0} {start w : World V A E D}
      → start.in_flight ≡ []
      → Reach engine requests Allowed start w
      → ((id : ℕ) → is_live (w.stage id) ≡ false)
      → in_flight_count w.in_flight ≡ 0
  in_flight_count-settled {start = start} {w = w} empty reached none_live =
      settled w.in_flight w.stage (Reach-IsAloft (empty-IsAloft start empty) reached) none_live
