-- ===== src/SyncRuns/Moves.antt =====
-- The moves of a run from `Running` to a status that is final.
use dayseam.Prelude.{
  ℕ, ◌≡◌, refl, ◌∙◌, ap, arith, Bool, true, false, not, List, [], ◌∷◌, Option, none, some, nat_eqb,
  any, if◌then◌else◌, Bool-cases, Option-cases, inl, inr,
}
use dayseam.Prelude.Results.{Result, ok, err}
use dayseam.Runs.{SyncRun, PerSourceState, SyncRunStatus, SyncRunCancelReason, is_running, failed}
use dayseam.SyncRuns.{
  has_id, get, insert, update, is_open, terminate, refers, transition, refusal, DbError, id_column,
  status_column, invalid_data, sqlx, mark_finished, mark_cancelled, mark_failed,
}
use dayseam.SyncRuns.Table.{IsKeyed, open_count, length-open, update_closed, get-update}

-- To look the row up, to test its status and to write it: three steps that nothing comes between.
pub guarded :
    {E : Type 0}
    → ℕ
    → (SyncRun E → SyncRun E)
    → Bool
    → List (SyncRun E)
    → Option (SyncRun E)
    → List (SyncRun E) × Result DbError Unit
guarded id f refers rows none = (rows, err (invalid_data id_column))
guarded id f refers rows (some run) =
    if not (is_running run.status)
    then (rows, err (invalid_data status_column))
    else if not refers
    then (rows, err sqlx)
    else (update (is_open id) f rows, ok tt)

one_open : {E : Type 0} (run : SyncRun E) → is_running run.status ≡ true → open_count (some run) ≡ 1
one_open run goes = rw goes refl

none_open :
    {E : Type 0} (run : SyncRun E) → is_running run.status ≡ false → open_count (some run) ≡ 0
none_open run closed = rw closed refl

-- On rows with unique keys, the one `UPDATE … WHERE id = ? AND status = 'Running'` does what a
-- look-up of the row, a test of its status and a write would do: an unknown `id` and a run that is
-- not running are refused, each with its own error, and so is a reference to no row, and the table
-- stays; else the run's row is written.
pub transition-guarded :
    {E : Type 0} (id : ℕ) (to_status : SyncRunStatus) (finished_at : Option ℕ)
    (reason : Option SyncRunCancelReason) (reference : Option ℕ)
    (sources : Option (List (PerSourceState E))) (rows : List (SyncRun E))
    → IsKeyed rows
    → transition id to_status finished_at reason reference sources rows
      ≡ guarded id
          (terminate to_status finished_at reason reference sources)
          (refers rows reference)
          rows
          (get id rows)
unfolding transition guarded refusal
transition-guarded id to_status finished_at reason reference sources rows keyed =
    let count = length-open id rows keyed in
    let f = terminate to_status finished_at reason reference sources in
    elim (Option-cases (get id rows)) [
      | inl missing ↦
          let zero = count ∙ ap open_count missing in
          rw (zero, update_closed id f rows zero, missing) refl
      | inr (run, found) ↦ elim (Bool-cases (is_running run.status)) [
        | inl goes ↦
            let one = count ∙ ap open_count found ∙ one_open run goes in rw (one, found, goes) refl
        | inr closed ↦
            let zero = count ∙ ap open_count found ∙ none_open run closed in
            rw (zero, update_closed id f rows zero, found, closed) refl
      ]
    ]

pub mark_failed-open :
    {E : Type 0} (id now : ℕ) (sources : List (PerSourceState E)) (rows : List (SyncRun E))
    (run : SyncRun E)
    → IsKeyed rows
    → get id rows ≡ some run
    → is_running run.status ≡ true
    → mark_failed id now sources rows
      ≡ (update (is_open id) (terminate failed (some now) none none (some sources)) rows, ok tt)
unfolding guarded
mark_failed-open id now sources rows run keyed found goes =
    transition-guarded id failed (some now) none none (some sources) rows keyed
    ∙ rw (found, goes) refl

-- One call of the repository that writes, and a sequence of them.
pub data Call (E : Type 0) : Type 0 where
  inserting : SyncRun E → Call E
  finishing failing : ℕ → ℕ → List (PerSourceState E) → Call E
  cancelling : ℕ → ℕ → SyncRunCancelReason → List (PerSourceState E) → Call E

unfoldable pub call :
    {E : Type 0} → Call E → List (SyncRun E) → List (SyncRun E) × Result DbError Unit
call (inserting run) rows = insert run rows
call (finishing id t sources) rows = mark_finished id t sources rows
call (failing id t sources) rows = mark_failed id t sources rows
call (cancelling id t reason sources) rows = mark_cancelled id t reason sources rows

unfoldable pub after : {E : Type 0} → List (Call E) → List (SyncRun E) → List (SyncRun E)
after [] rows = rows
after (c ∷ cs) rows = after cs (call c rows).0

module _ {E : Type 0} where
  clash :
      (j id : ℕ) (final : SyncRun E) (rows : List (SyncRun E))
      → get id rows ≡ some final
      → nat_eqb j id ≡ true
      → any (has_id j) rows ≡ true
  clash j id final [] found same = cc
  clash j id final (run ∷ rows) found same = ground (arith, clash j id final rows)

  insert_keeps :
      (run final : SyncRun E) (id : ℕ) (rows : List (SyncRun E))
      → get id rows ≡ some final
      → get id (insert run rows).0 ≡ some final
  unfolding insert
  insert_keeps run final id rows found = ground (arith, found, clash run.id id final rows)

  transition_keeps :
      (id j : ℕ) (to_status : SyncRunStatus) (finished_at : Option ℕ)
      (reason : Option SyncRunCancelReason) (reference : Option ℕ)
      (sources : Option (List (PerSourceState E))) (final : SyncRun E) (rows : List (SyncRun E))
      → get j rows ≡ some final
      → is_running final.status ≡ false
      → get j (transition id to_status finished_at reason reference sources rows).0 ≡ some final
  unfolding transition
  transition_keeps id j to_status finished_at reason reference sources final rows found closed =
      let f = terminate to_status finished_at reason reference sources in
      ground (arith, get-update id j f (λ _. refl) rows)

  call_keeps :
      (c : Call E) (final : SyncRun E) (id : ℕ) (rows : List (SyncRun E))
      → get id rows ≡ some final
      → is_running final.status ≡ false
      → get id (call c rows).0 ≡ some final
  unfolding call
  call_keeps (inserting run) final id rows found closed = insert_keeps run final id rows found
  call_keeps (finishing j t sources) final id rows found closed =
      transition_keeps j id _ _ _ _ _ final rows found closed
  call_keeps (failing j t sources) final id rows found closed =
      transition_keeps j id _ _ _ _ _ final rows found closed
  call_keeps (cancelling j t reason sources) final id rows found closed =
      transition_keeps j id _ _ _ _ _ final rows found closed

  -- Whatever the calls that follow, a run that has ended stays in the table as it was left, in every
  -- column: no later call overwrites the end of the first.
  pub after_keeps :
      (cs : List (Call E)) (final : SyncRun E) (id : ℕ) (rows : List (SyncRun E))
      → get id rows ≡ some final
      → is_running final.status ≡ false
      → get id (after cs rows) ≡ some final
  unfolding after
  after_keeps [] final id rows found closed = found
  after_keeps (c ∷ cs) final id rows found closed =
      after_keeps cs final id (call c rows).0 (call_keeps c final id rows found closed) closed
