-- ===== src/SyncRuns.antt =====
-- crates/dayseam-db/src/repos/sync_runs.rs: the table of sync runs and the repository that guards
-- its state machine, whose row is Runs' `SyncRun`. The table is the list of its rows; the SQL
-- statements are functions on it that keep the constraints of
-- crates/dayseam-db/migrations/0002_artifact_syncrun.sql: `id` is the primary key, and
-- `superseded_by` refers to a row. The message of an error is left out.
pub mod Table
pub mod Order
pub mod Moves
pub mod Wellformed
pub mod Standing
mod Tests
use dayseam.Prelude.{
  ℕ, ◌≤◌, Bool, true, false, not, ◌&&◌, ◌||◌, List, [], ◌∷◌, ◌++◌, Option, none, some, nat_eqb, leb,
  nat_eq, ◌==◌, filter, find, length, any, if◌then◌else◌,
}
use dayseam.Prelude.Results.{Result, ok, err}
use dayseam.Runs.{
  SyncRun, PerSourceState, SyncRunStatus, SyncRunTrigger, SyncRunCancelReason, running, completed,
  cancelled, failed, user, superseded_by, is_running,
}

pub data Column : Type 0 where
  id_column status_column finished_at_column : Column

pub data DbError : Type 0 where
  conflict sqlx : DbError
  invalid_data : Column → DbError

abbrev pub is_some : Option ℕ → Bool
is_some none = false
is_some (some t) = true

-- SQL's `COALESCE`.
abbrev pub coalesce : {A : Type 0} → Option A → A → A
coalesce none a = a
coalesce (some b) a = b

-- The run that a reason names.
abbrev pub superseding : SyncRunCancelReason → Option ℕ
superseding user = none
superseding (superseded_by run_id) = some run_id

module _ {E : Type 0} where
  abbrev pub has_id : ℕ → SyncRun E → Bool
  has_id id run = nat_eqb run.id id

  -- Whether a reference is to a row of the table.
  abbrev pub refers : List (SyncRun E) → Option ℕ → Bool
  refers rows none = true
  refers rows (some id) = any (has_id id) rows

  -- A row may refer to itself.
  unfoldable pub insert : SyncRun E → List (SyncRun E) → List (SyncRun E) × Result DbError Unit
  insert run rows =
      if not (is_running run.status)
      then (rows, err (invalid_data status_column))
      else if is_some run.finished_at
      then (rows, err (invalid_data finished_at_column))
      else if any (has_id run.id) rows
      then (rows, err conflict)
      else if not (refers (run ∷ rows) run.superseded_by)
      then (rows, err conflict)
      else (run ∷ rows, ok tt)

  abbrev pub get : ℕ → List (SyncRun E) → Option (SyncRun E)
  get id rows = find (has_id id) rows

  -- The `SET` of the `UPDATE`, and its `WHERE`.
  abbrev pub terminate :
      SyncRunStatus
      → Option ℕ
      → Option SyncRunCancelReason
      → Option ℕ
      → Option (List (PerSourceState E))
      → SyncRun E
      → SyncRun E
  terminate to_status finished_at cancel_reason reference per_source_state run = record run {
    status = to_status;
    finished_at = finished_at;
    cancel_reason = cancel_reason;
    superseded_by = reference;
    per_source_state = coalesce per_source_state run.per_source_state;
  }

  abbrev pub is_open : ℕ → SyncRun E → Bool
  is_open id run = has_id id run && is_running run.status

  abbrev pub update :
      (SyncRun E → Bool) → (SyncRun E → SyncRun E) → List (SyncRun E) → List (SyncRun E)
  update p f [] = []
  update p f (run ∷ rows) = let rest = update p f rows in if p run then f run ∷ rest else run ∷ rest

  pub refusal : Option (SyncRun E) → DbError
  refusal none = invalid_data id_column
  refusal (some current) = invalid_data status_column

  -- A statement that breaks a reference changes nothing.
  unfoldable pub transition :
      ℕ
      → SyncRunStatus
      → Option ℕ
      → Option SyncRunCancelReason
      → Option ℕ
      → Option (List (PerSourceState E))
      → List (SyncRun E)
      → List (SyncRun E) × Result DbError Unit
  transition id to_status finished_at cancel_reason reference per_source_state rows =
      let rows_affected = length (filter (is_open id) rows) in
      if not (nat_eqb rows_affected 0) && not (refers rows reference)
      then (rows, err sqlx)
      else let f = terminate to_status finished_at cancel_reason reference per_source_state in
        (
          update (is_open id) f rows,
          if nat_eqb rows_affected 1
              then ok tt
              else err (refusal (get id (update (is_open id) f rows))),
        )

  abbrev pub mark_finished :
      ℕ → ℕ → List (PerSourceState E) → List (SyncRun E) → List (SyncRun E) × Result DbError Unit
  mark_finished id finished_at per_source_state =
      transition id completed (some finished_at) none none (some per_source_state)

  abbrev pub mark_cancelled :
      ℕ
      → ℕ
      → SyncRunCancelReason
      → List (PerSourceState E)
      → List (SyncRun E)
      → List (SyncRun E) × Result DbError Unit
  mark_cancelled id finished_at reason per_source_state =
      transition id cancelled (some finished_at) (some reason) (superseding reason)
        (some per_source_state)

  abbrev pub mark_failed :
      ℕ → ℕ → List (PerSourceState E) → List (SyncRun E) → List (SyncRun E) × Result DbError Unit
  mark_failed id finished_at per_source_state =
      transition id failed (some finished_at) none none (some per_source_state)

  -- `ORDER BY started_at`: rows of one instant stay in the table's order.
  place_by_start : SyncRun E → List (SyncRun E) → List (SyncRun E)
  place_by_start run [] = run ∷ []
  place_by_start run (first ∷ rows) =
      let rest = place_by_start run rows in
      if leb run.started_at first.started_at then run ∷ first ∷ rows else first ∷ rest

  pub by_start : List (SyncRun E) → List (SyncRun E)
  by_start [] = []
  by_start (run ∷ rows) = place_by_start run (by_start rows)

  abbrev pub is_left_behind : SyncRun E → Bool
  is_left_behind run = is_running run.status && not (is_some run.finished_at)

  unfoldable pub list_running : List (SyncRun E) → List (SyncRun E)
  list_running rows = by_start (filter is_left_behind rows)
