-- ===== src/Generate/Spares.antt =====
-- What each kind of step of a run leaves alone.
use dayseam.Prelude.{
  ℕ, ◌≡◌, refl, sym, ◌∙◌, ap, arith, true, false, List, ◌∷◌, Option, none, some, nat_eqb,
  nat_eqb_iff, if◌then◌else◌, Bool-cases, inl, inr, ◌==◌,
}
use dayseam.Prelude.Maps.{remove, lookup-insert, lookup-remove}
use dayseam.Runs.{
  SyncRun, PerSourceState, SyncRunStatus, SyncRunCancelReason, SyncRunTrigger, is_running,
}
use dayseam.SyncRuns.{get, transition}
use dayseam.SyncRuns.Standing.{is_known, known-transition, closed-transition}
use dayseam.Generate.{
  InFlight, InFlightEntry, in_flight_key_eq, is_ours, swap_in_flight, drop_in_flight_if_ours,
}
use dayseam.Generate.World.{Stage, swapped, GenerateRequest, fresh_run, run_ids}
use dayseam.Generate.Standing.{Spares, Owed, Fine, AllFine, owes, is_starting, spared-Fine}

ours-run_ids :
    (j : ℕ) (found : Option InFlightEntry) → is_ours j found ≡ true → run_ids found ≡ some j
ours-run_ids j none ours = ground arith
ours-run_ids j (some entry) ours = ap some ((nat_eqb_iff entry.run_id j).0 ours)

module _ {V A E D : Type 0} (requests : ℕ → GenerateRequest) where
  abbrev pub moved : ℕ → Stage V A E D → (ℕ → Stage V A E D) → ℕ → Stage V A E D
  moved id after stage j = if nat_eqb j id then after else stage j

  pub assemble :
      (id : ℕ) (after : Stage V A E D) (stage : ℕ → Stage V A E D) {m m' : InFlight}
      {rows rows' : List (SyncRun E)}
      → Spares requests id m m' rows rows' stage (moved id after stage)
      → Fine requests m' rows' (moved id after stage) id after
      → AllFine requests m rows stage
      → AllFine requests m' rows' (moved id after stage)
  assemble id after stage s fine all j = elim (Bool-cases (nat_eqb j id)) [
    | inl ours ↦ rw (ours, (nat_eqb_iff j id).0 ours) fine
    | inr apart ↦ rw apart (spared-Fine requests s j apart (stage j) refl (all j))
  ]

  -- What the run owed, it still owes.
  still :
      (id : ℕ) (after : Stage V A E D) (rows : List (SyncRun E)) (stage : ℕ → Stage V A E D)
      → owes (stage id) ≡ owes after
      → (j : ℕ) → owes (stage id) ≡ some j
      → Owed rows (moved id after stage) j
  still id after rows stage same j owing =
      inr (id, rw ((nat_eqb_iff id id).1 refl) (sym same ∙ owing))

  -- A step that changes the run's stage only.
  pub pure :
      (id : ℕ) (after : Stage V A E D) (m : InFlight) (rows : List (SyncRun E))
      (stage : ℕ → Stage V A E D)
      → owes (stage id) ≡ owes after
      → Spares requests id m m rows rows stage (moved id after stage)
  pure id after m rows stage same = record {
    same = λ j apart. rw apart refl;
    known = λ j known. known;
    unknown = λ j apart fresh. fresh;
    closed = λ j closed. closed;
    held = λ j apart held. inl held;
    pays = still id after rows stage same;
  }

  -- A step that brings a run to its end in the table.
  pub written :
      (id : ℕ) (after : Stage V A E D) (m : InFlight) (stage : ℕ → Stage V A E D) (target : ℕ)
      (to_status : SyncRunStatus) (now : Option ℕ) (reason : Option SyncRunCancelReason)
      (reference : Option ℕ) (sources : Option (List (PerSourceState E))) (rows : List (SyncRun E))
      → is_running to_status ≡ false
      → ((j : ℕ)
          → owes (stage id) ≡ some j
          → Owed
              (transition target to_status now reason reference sources rows).0
              (moved id after stage)
              j)
      → Spares requests id m m rows
          (transition target to_status now reason reference sources rows).0
          stage
          (moved id after stage)
  written id after m stage target to_status now reason reference sources rows final paying =
      record {
        same = λ j apart. rw apart refl;
        known = λ j known.
            known-transition target j to_status now reason reference sources rows ∙ known;
        unknown = λ j apart fresh.
            known-transition target j to_status now reason reference sources rows ∙ fresh;
        closed = λ j closed.
            closed-transition target j to_status now reason reference sources rows final closed;
        held = λ j apart held. inl held;
        pays = paying;
      }

  pub swaps :
      (id : ℕ) (m : InFlight) (rows : List (SyncRun E)) (stage : ℕ → Stage V A E D)
      → owes (stage id) ≡ none
      → ((j : ℕ) → is_starting (stage j) ≡ false)
      → let swap = swap_in_flight (requests id).key id m in
        Spares requests id m swap.0 rows rows stage (moved id (swapped (run_ids swap.1)) stage)
  swaps id m rows stage free alone = record {
    same = λ j apart. rw apart refl;
    known = λ j known. known;
    unknown = λ j apart fresh. fresh;
    closed = λ j closed. closed;
    held = λ j apart held. elim (Bool-cases ((requests id).key == (requests j).key)) [
      | inl one ↦
          let at = (in_flight_key_eq.beq_iff (requests id).key (requests j).key).0 one in
          inr (alone j, inr (id, rw ((nat_eqb_iff id id).1 refl, at) (ours-run_ids j _ held)))
      | inr two ↦ inl (
          rw
            (
              lookup-insert (requests id).key (requests j).key (record { run_id = id })
                  (remove (requests id).key m),
              lookup-remove (requests id).key (requests j).key m,
              two,
            )
            held)
    ];
    pays = λ j owing. ground (arith, free, owing);
  }

  pub drops :
      (id : ℕ) (after : Stage V A E D) (m : InFlight) (rows : List (SyncRun E))
      (stage : ℕ → Stage V A E D)
      → owes (stage id) ≡ owes after
      → Spares requests id m
          (drop_in_flight_if_ours (requests id).key id m)
          rows
          rows
          stage
          (moved id after stage)
  drops id after m rows stage same = record {
    same = λ j apart. rw apart refl;
    known = λ j known. known;
    unknown = λ j apart fresh. fresh;
    closed = λ j closed. closed;
    held = λ j apart held. inl (
        ground (
          arith,
          held,
          lookup-remove (requests id).key (requests j).key m,
          in_flight_key_eq.beq_iff (requests id).key (requests j).key,
        ));
    pays = still id after rows stage same;
  }

  pub inserts :
      (id now : ℕ) (trigger : SyncRunTrigger) (after : Stage V A E D) (m : InFlight)
      (rows : List (SyncRun E)) (stage : ℕ → Stage V A E D)
      → is_known (get id rows) ≡ false
      → owes (stage id) ≡ owes after
      → Spares requests id m m rows (fresh_run id now trigger ∷ rows) stage (moved id after stage)
  inserts id now trigger after m rows stage fresh same = record {
    same = λ j apart. rw apart refl;
    known = λ j known. ground (arith, known);
    unknown = λ j apart unknown. ground (arith, apart, unknown);
    closed = λ j closed. elim (Bool-cases (nat_eqb id j)) [
      | inl ours ↦
          let at = (nat_eqb_iff id j).0 ours in
          let clash = ap (λ x. is_known (get x rows)) (sym at) ∙ fresh in
          ground (arith, closed, clash)
      | inr apart ↦ rw apart closed
    ];
    held = λ j apart held. inl held;
    pays = still id after rows' stage same;
  }
    where
      rows' : List (SyncRun E)
      rows' = fresh_run id now trigger ∷ rows
