-- ===== src/Generate/Settles.antt =====
-- A step of one run keeps what is true of all of them, when the database answers and no start begins
-- while another is under way.
use dayseam.Prelude.{
  ℕ, ◌≡◌, ◌⊎◌, refl, sym, ◌∙◌, arith, true, false, List, [], Option, none, some, nat_eqb_iff,
  Bool-cases, Option-cases, inl, inr,
}
use dayseam.Prelude.Maps.{lookup, remove, lookup-insert}
use dayseam.Prelude.Results.{Result, ok, err}
use dayseam.Runs.{
  SyncRun, PerSourceState, SyncRunStatus, SyncRunCancelReason, is_running, completed, cancelled,
  failed, user, superseded_by,
}
use dayseam.SyncRuns.{DbError, get, transition, mark_cancelled}
use dayseam.SyncRuns.Standing.{is_known, insert-fresh, known-transition, transition-closes, any-get}
use dayseam.Generate.{
  InFlightEntry, in_flight_key_eq, newer, swap_in_flight, GenerateOutcome, PerSourceResult,
  outcome_cancelled,
}
use dayseam.Generate.World.{
  Stage, idle, swapped, signalled, rejected, recorded, spawned, fetched, stopped, cancelling,
  collected, stored, cleared, drafted, failing, ending, over, GenerateRequest, World, Answer,
  Engine, either, is_nil, fresh_run, run_ids,
}
use dayseam.Generate.Machine.{advance, guard}
use dayseam.Generate.Standing.{
  Known, Held, Owed, PriorKnown, Fine, AllFine, owes, is_starting, spared-Known, spared-Owed,
  live-Known,
}
use dayseam.Generate.Flights.{IsFlying}
use dayseam.Generate.Spares.{moved, assemble, pure, written, swaps, drops, inserts}

map_right : {X Y Z : Type 0} → (Y → Z) → X ⊎ Y → X ⊎ Z
map_right f (inl x) = inl x
map_right f (inr y) = inr (f y)

module _ {V A E D : Type 0} (engine : Engine V A E D) (requests : ℕ → GenerateRequest) where
  abbrev pub IsAllFine : World V A E D → Type 0
  IsAllFine w = AllFine requests w.in_flight w.sync_runs w.stage

  -- A step to a later stage of the same promise.
  passes :
      (id : ℕ) (after : Stage V A E D) (w : World V A E D)
      → owes (w.stage id) ≡ owes after
      → ((Owed w.sync_runs w.stage id → Owed w.sync_runs (moved requests id after w.stage) id)
          → Fine requests w.in_flight w.sync_runs (moved requests id after w.stage) id after)
      → IsAllFine w
      → AllFine requests w.in_flight w.sync_runs (moved requests id after w.stage)
  passes id after w same fine all =
      let s = pure requests id after w.in_flight w.sync_runs w.stage same in
      assemble requests id after w.stage s (fine (spared-Owed requests s id)) all

  -- The row of a run that the table has is closed now.
  closes :
      (id : ℕ) (outcome : GenerateOutcome) (w : World V A E D) (to_status : SyncRunStatus)
      (now : Option ℕ) (reason : Option SyncRunCancelReason) (sources : List (PerSourceState E))
      → is_running to_status ≡ false
      → owes (w.stage id) ≡ none
      → Known w.sync_runs id
      → IsAllFine w
      → AllFine requests w.in_flight
          (transition id to_status now reason none (some sources) w.sync_runs).0
          (moved requests id (ending outcome) w.stage)
  closes id outcome w to_status now reason sources final free known all =
      assemble requests id (ending outcome) w.stage
        (written requests id (ending outcome) w.in_flight w.stage id to_status now reason none
          (some sources) w.sync_runs final (λ j owing. ground (arith, free, owing)))
        (
          known-transition id id to_status now reason none (some sources) w.sync_runs ∙ known,
          inl (
              transition-closes id to_status now reason none (some sources) w.sync_runs final refl
                known),
        )
        all

  marks :
      (id prior now : ℕ) (w : World V A E D)
      → owes (w.stage id) ≡ some prior
      → Known w.sync_runs id
      → Held requests w.in_flight id ⊎ Owed w.sync_runs w.stage id
      → Known w.sync_runs prior
      → IsAllFine w
      → AllFine requests w.in_flight
          (mark_cancelled prior now (superseded_by id) [] w.sync_runs).0
          (moved requests id spawned w.stage)
  marks id prior now w owing known held row all =
      let refer = any-get id w.sync_runs ∙ known in
      let marked =
        transition-closes prior cancelled (some now) (some (superseded_by id)) (some id) (some [])
          w.sync_runs refl refer row in
      let s =
        written requests id spawned w.in_flight w.stage prior cancelled (some now)
          (some (superseded_by id)) (some id) (some []) w.sync_runs refl
          (λ j owed.
            let one : prior ≡ j = ground (arith, owing, owed) in inl (rw (sym one) marked)) in
      assemble requests id spawned w.stage s
        (s.known id known, map_right (spared-Owed requests s id) held) all

  -- A step that the answer of the database decides.
  answers :
      {X : Type 0} (id : ℕ) (after refused : Stage V A E D) (answered : Result DbError X)
      (w : World V A E D)
      → owes (w.stage id) ≡ owes after
      → owes (w.stage id) ≡ owes refused
      → ((Owed w.sync_runs w.stage id → Owed w.sync_runs (moved requests id after w.stage) id)
          → Fine requests w.in_flight w.sync_runs (moved requests id after w.stage) id after)
      → ((Owed w.sync_runs w.stage id → Owed w.sync_runs (moved requests id refused w.stage) id)
          → Fine requests w.in_flight w.sync_runs (moved requests id refused w.stage) id refused)
      → IsAllFine w
      → AllFine requests w.in_flight w.sync_runs
          (moved requests id (either answered after refused) w.stage)
  unfolding either
  answers id after refused (ok done) w a r fine refuses all = passes id after w a fine all
  answers id after refused (err e) w a r fine refuses all = passes id refused w r refuses all

  holds :
      (id : ℕ) (w : World V A E D)
      → Held requests (swap_in_flight (requests id).key id w.in_flight).0 id
  holds id w =
      rw
        (
          lookup-insert (requests id).key (requests id).key (record { run_id = id })
              (remove (requests id).key w.in_flight),
          (in_flight_key_eq.beq_iff (requests id).key (requests id).key).1 refl,
        )
        ((nat_eqb_iff id id).1 refl)

  -- A run whose entry is another's is owed its end.
  lost :
      (id n : ℕ) (w : World V A E D) (found : Option InFlightEntry)
      → lookup (requests id).key w.in_flight ≡ found
      → newer id found ≡ some n
      → Held requests w.in_flight id ⊎ Owed w.sync_runs w.stage id
      → Owed w.sync_runs w.stage id
  lost id n w found is other (inr owed) = owed
  lost id n w none is other (inl held) = ground arith
  lost id n w (some entry) is other (inl held) = ground (arith, held, is, other)

  prior-Known :
      (id : ℕ) (w : World V A E D)
      → ((j : ℕ) → is_starting (w.stage j) ≡ false)
      → IsFlying requests w.in_flight w.stage
      → IsAllFine w
      → (found : Option InFlightEntry) → lookup (requests id).key w.in_flight ≡ found
      → PriorKnown w.sync_runs (run_ids found)
  prior-Known id w alone aloft all none is = tt
  prior-Known id w alone aloft all (some entry) is =
      live-Known requests w.in_flight w.sync_runs w.stage entry.run_id (w.stage entry.run_id)
        (aloft (requests id).key entry is).1 (alone entry.run_id) (all entry.run_id)

  stops :
      (id : ℕ) (per_source : List (PerSourceResult V A E)) (w : World V A E D)
      (found : Option InFlightEntry)
      → lookup (requests id).key w.in_flight ≡ found
      → owes (w.stage id) ≡ none
      → Known w.sync_runs id
      → Held requests w.in_flight id ⊎ Owed w.sync_runs w.stage id
      → IsAllFine w
      → AllFine requests w.in_flight w.sync_runs
          (moved requests id (cancelling per_source (newer id found)) w.stage)
  stops id per_source w found is free known held all = elim (Option-cases (newer id found)) [
    | inl ours ↦
        rw ours (
          passes id (cancelling per_source none) w free (λ carry. (known, map_right carry held))
            all)
    | inr (n, other) ↦ rw other (
        passes id (cancelling per_source (some n)) w free
          (λ carry. (known, carry (lost id n w found is other held))) all)
  ]

  guards :
      (id draft_id : ℕ) (sources : List (PerSourceState E)) (rendered : Result E D)
      (w : World V A E D) (found : Option InFlightEntry)
      → lookup (requests id).key w.in_flight ≡ found
      → owes (w.stage id) ≡ none
      → Known w.sync_runs id
      → Held requests w.in_flight id ⊎ Owed w.sync_runs w.stage id
      → IsAllFine w
      → IsAllFine (guard id draft_id sources (newer id found) rendered w)
  guards id draft_id sources (err e) w found is free known held all =
      passes id (failing sources) w free (λ carry. (known, map_right carry held)) all
  guards id draft_id sources (ok draft) w found is free known held all =
      elim (Option-cases (newer id found)) [
        | inl ours ↦ rw ours (
            passes id (cleared draft_id draft sources) w free
              (λ carry. (known, map_right carry held)) all)
        | inr (n, other) ↦ rw other (
            passes id (over (outcome_cancelled id (superseded_by n))) w free
              (λ carry. (known, carry (lost id n w found is other held))) all)
      ]

  pub advance-AllFine :
      (id : ℕ) (answer : Answer V A E) (at : Stage V A E D) (w : World V A E D)
      → owes (w.stage id) ≡ owes at
      → answer.available ≡ true
      → (at ≡ idle
          → (is_known (get id w.sync_runs) ≡ false) × ((j : ℕ) → is_starting (w.stage j) ≡ false))
      → IsFlying requests w.in_flight w.stage
      → Fine requests w.in_flight w.sync_runs w.stage id at
      → IsAllFine w
      → IsAllFine (advance engine requests id answer at w)
  unfolding advance either
  advance-AllFine id answer idle w own up begins aloft fine all =
      let (fresh, alone) = begins refl in
      assemble requests id (swapped (run_ids (lookup (requests id).key w.in_flight))) w.stage
        (swaps requests id w.in_flight w.sync_runs w.stage own alone)
        (fresh, (holds id w, prior-Known id w alone aloft all _ refl)) all
  advance-AllFine id answer (swapped prior) w own up begins aloft (fresh, (held, known)) all =
      passes id (signalled prior) w own (λ carry. (fresh, (held, known))) all
  advance-AllFine id answer (signalled prior) w own up begins aloft (fresh, (held, known)) all =
      let run : SyncRun E = fresh_run id answer.now (requests id).trigger in
      rw (up, insert-fresh run w.sync_runs refl refl refl fresh)
        (let s =
            inserts requests id answer.now (requests id).trigger (recorded prior) w.in_flight
              w.sync_runs w.stage fresh own in
          assemble requests id (recorded prior) w.stage s
            (ground arith, (inl held, spared-Known requests s prior known)) all)
  advance-AllFine id answer rejected w own up begins aloft fine all = absurd fine
  advance-AllFine id answer (recorded none) w own up begins aloft (row, (held, known)) all =
      passes id spawned w own (λ carry. (row, map_right carry held)) all
  advance-AllFine id answer (recorded (some prior)) w own up begins aloft (row, (held, known)) all =
      rw up (marks id prior answer.now w own row held known all)
  advance-AllFine id answer spawned w own up begins aloft (row, held) all =
      passes id (fetched answer.per_source) w own (λ carry. (row, map_right carry held)) all
  advance-AllFine id answer (fetched per_source) w own up begins aloft (row, held) all =
      elim (Bool-cases (w.fired id)) [
        | inl stops ↦
            rw stops
              (passes id (stopped per_source) w own (λ carry. (row, map_right carry held)) all)
        | inr goes ↦ rw goes (passes id _ w own (λ carry. (row, map_right carry held)) all)
      ]
  advance-AllFine id answer (stopped per_source) w own up begins aloft (row, held) all =
      stops id per_source w (lookup (requests id).key w.in_flight) refl own row held all
  advance-AllFine id answer (cancelling per_source none) w own up begins aloft (row, held) all =
      rw up (closes id _ w cancelled (some answer.now) (some user) _ refl own row all)
  advance-AllFine id answer (cancelling per_source (some n)) w own up begins aloft (row, held) all =
      passes id (ending (outcome_cancelled id (superseded_by n))) w own (λ carry. (row, carry held))
        all
  advance-AllFine id answer (collected split) w own up begins aloft (row, held) all =
      elim (Bool-cases (is_nil split.events)) [
        | inl nothing ↦
            rw nothing (passes id (stored split) w own (λ carry. (row, map_right carry held)) all)
        | inr events ↦
            rw (events, up)
              (answers id (stored split) (failing split.per_source_syncrun) _ w own own
                (λ carry. (row, map_right carry held)) (λ carry. (row, map_right carry held)) all)
      ]
  advance-AllFine id answer (stored split) w own up begins aloft (row, held) all =
      guards id answer.draft_id split.per_source_syncrun _ w _ refl own row held all
  advance-AllFine id answer (cleared draft_id draft sources) w own up begins aloft (row, held) all =
      answers id (drafted draft_id sources) (failing sources) _ w own own
        (λ carry. (row, map_right carry held)) (λ carry. (row, map_right carry held)) all
  advance-AllFine id answer (drafted draft_id sources) w own up begins aloft (row, held) all =
      rw up (closes id _ w completed (some answer.now) none sources refl own row all)
  advance-AllFine id answer (failing sources) w own up begins aloft (row, held) all =
      rw up (closes id _ w failed (some answer.now) none sources refl own row all)
  advance-AllFine id answer (ending outcome) w own up begins aloft (row, owed) all =
      let s = drops requests id (over outcome) w.in_flight w.sync_runs w.stage own in
      assemble requests id (over outcome) w.stage s (row, spared-Owed requests s id owed) all
  advance-AllFine id answer (over outcome) w own up begins aloft fine all = all
