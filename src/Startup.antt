-- ===== src/Startup.antt =====
-- crates/dayseam-orchestrator/src/startup.rs: the recovery of the runs that a crash left in the
-- table of sync runs as running. The clock and the error that a source is given,
-- `INTERNAL_PROCESS_RESTARTED`, are arguments.
mod Recovery
mod Tests
use dayseam.Prelude.{ℕ, suc, List, [], ◌∷◌, Option, some, map}
use dayseam.Prelude.Results.{Result, ok, err}
use dayseam.Runs.{SyncRun, PerSourceState, RunStatus, pending, running, succeeded, failed, skipped}
use dayseam.SyncRuns.{list_running, mark_failed, DbError}

module _ {E : Type 0} where
  -- A source that had not finished has failed now; its count of events stays.
  pub interrupted : E → ℕ → PerSourceState E → PerSourceState E
  interrupted restarted finished_at state = record state {
    status = failed;
    finished_at = some finished_at;
    error = some restarted;
  }

  pub remap_source : E → ℕ → RunStatus → PerSourceState E → PerSourceState E
  remap_source restarted finished_at pending state = interrupted restarted finished_at state
  remap_source restarted finished_at running state = interrupted restarted finished_at state
  remap_source restarted finished_at succeeded state = state
  remap_source restarted finished_at failed state = state
  remap_source restarted finished_at skipped state = state

  pub remap_per_source_state_for_recovery : E → ℕ → SyncRun E → List (PerSourceState E)
  remap_per_source_state_for_recovery restarted finished_at run =
      map (λ state. remap_source restarted finished_at state.status state) run.per_source_state

  -- The loop over the runs, and its count of them; the first refusal ends it.
  abbrev pub count_on : List (SyncRun E) × Result DbError ℕ → List (SyncRun E) × Result DbError ℕ
  count_on (rows, ok recovered) = (rows, ok (suc recovered))
  count_on (rows, err e) = (rows, err e)

  abbrev pub unless_refused :
      List (SyncRun E) × Result DbError Unit
      → List (SyncRun E) × Result DbError ℕ
      → List (SyncRun E) × Result DbError ℕ
  unless_refused (rows, ok done) rest = rest
  unless_refused (rows, err e) rest = (rows, err e)

  pub recover_runs :
      E → ℕ → List (SyncRun E) → List (SyncRun E) → List (SyncRun E) × Result DbError ℕ
  recover_runs restarted now [] rows = (rows, ok 0)
  recover_runs restarted now (run ∷ runs) rows =
      let marked =
        mark_failed run.id now (remap_per_source_state_for_recovery restarted now run) rows in
      unless_refused marked (count_on (recover_runs restarted now runs marked.0))

  pub recover_crashed_runs : E → ℕ → List (SyncRun E) → List (SyncRun E) × Result DbError ℕ
  recover_crashed_runs restarted now rows = recover_runs restarted now (list_running rows) rows
