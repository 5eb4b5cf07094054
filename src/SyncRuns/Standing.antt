-- ===== src/SyncRuns/Standing.antt =====
-- Whether the table has a run, and whether the run has ended, across the repository's calls.
use dayseam.Prelude.{
  ℕ, ◌≡◌, refl, arith, Bool, true, false, not, List, [], ◌∷◌, Option, none, some, nat_eqb, any,
  Option-cases, inl, inr,
}
use dayseam.Prelude.Results.{ok}
use dayseam.Runs.{SyncRun, PerSourceState, SyncRunStatus, SyncRunCancelReason, is_running}
use dayseam.SyncRuns.{has_id, get, insert, terminate, refers, transition, is_some}
use dayseam.SyncRuns.Table.{get-update}

abbrev pub is_known : {E : Type 0} → Option (SyncRun E) → Bool
is_known none = false
is_known (some run) = true

abbrev pub is_closed : {E : Type 0} → Option (SyncRun E) → Bool
is_closed none = false
is_closed (some run) = not (is_running run.status)

module _ {E : Type 0} where
  pub any-get : (id : ℕ) (rows : List (SyncRun E)) → any (has_id id) rows ≡ is_known (get id rows)
  any-get id [] = refl
  any-get id (run ∷ rows) = ground (arith, any-get id rows)

  -- A fresh run is inserted, and no other row changes.
  pub insert-fresh :
      (run : SyncRun E) (rows : List (SyncRun E))
      → is_running run.status ≡ true
      → is_some run.finished_at ≡ false
      → run.superseded_by ≡ none
      → is_known (get run.id rows) ≡ false
      → insert run rows ≡ (run ∷ rows, ok tt)
  unfolding insert
  insert-fresh run rows goes unended alone fresh =
      rw (goes, unended, any-get run.id rows, fresh, alone) refl

  module _ (id j : ℕ) (to_status : SyncRunStatus) (finished_at : Option ℕ)
      (reason : Option SyncRunCancelReason) (reference : Option ℕ)
      (sources : Option (List (PerSourceState E))) (rows : List (SyncRun E)) where
    pub known-transition :
        is_known (get j (transition id to_status finished_at reason reference sources rows).0)
        ≡ is_known (get j rows)
    unfolding transition
    known-transition = ground (
      arith,
      get-update id j (terminate to_status finished_at reason reference sources) (λ _. refl) rows,
    )

    pub closed-transition :
        is_running to_status ≡ false
        → is_closed (get j rows) ≡ true
        → is_closed (get j (transition id to_status finished_at reason reference sources rows).0)
          ≡ true
    unfolding transition
    closed-transition final closed = ground (
      arith,
      get-update id j (terminate to_status finished_at reason reference sources) (λ _. refl) rows,
    )

  has_id-get :
      (id : ℕ) (rows : List (SyncRun E)) (run : SyncRun E)
      → get id rows ≡ some run
      → nat_eqb run.id id ≡ true
  has_id-get id [] run found = ground arith
  has_id-get id (first ∷ rows) run found = ground (arith, has_id-get id rows run)

  -- A run that the table has is at its end after the repository was told so.
  pub transition-closes :
      (id : ℕ) (to_status : SyncRunStatus) (finished_at : Option ℕ)
      (reason : Option SyncRunCancelReason) (reference : Option ℕ)
      (sources : Option (List (PerSourceState E))) (rows : List (SyncRun E))
      → is_running to_status ≡ false
      → refers rows reference ≡ true
      → is_known (get id rows) ≡ true
      → is_closed (get id (transition id to_status finished_at reason reference sources rows).0)
        ≡ true
  unfolding transition
  transition-closes id to_status finished_at reason reference sources rows final refer known =
      elim (Option-cases (get id rows)) [
        | inl missing ↦ ground arith
        | inr (run, found) ↦
            let same = has_id-get id rows run found in
            ground (
              arith,
              get-update id id (terminate to_status finished_at reason reference sources)
                  (λ _. refl) rows,
              same,
            )
      ]
