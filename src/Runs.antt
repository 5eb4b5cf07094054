-- ===== src/Runs.antt =====
-- The data of crates/dayseam-core/src/types/run.rs: what started a run, and how it stands; with
-- `RunStatus` of report.rs. `E` is the type of the errors that a source's view of a run carries.
-- A run's identifier (`RunId`) is its 128 bits as a number.
use dayseam.Prelude.{ℕ, List, Option, Bool, true, false}

pub data SyncRunStatus : Type 0 where
  running completed cancelled failed : SyncRunStatus

pub data SchedulerTriggerKind : Type 0 where
  in_day final_pass catch_up : SchedulerTriggerKind

pub data SyncRunTrigger : Type 0 where
  user : SyncRunTrigger
  retry : ℕ → SyncRunTrigger
  scheduler : SchedulerTriggerKind → SyncRunTrigger

pub data SyncRunCancelReason : Type 0 where
  user : SyncRunCancelReason
  superseded_by : ℕ → SyncRunCancelReason

pub data RunStatus : Type 0 where
  pending running succeeded failed skipped : RunStatus

pub record PerSourceState (E : Type 0) : Type 0 where
  pub source_id : ℕ
  pub status : RunStatus
  pub started_at : ℕ
  pub finished_at : Option ℕ
  pub fetched_count : ℕ
  pub error : Option E

pub record SyncRun (E : Type 0) : Type 0 where
  pub id : ℕ
  pub started_at : ℕ
  pub finished_at : Option ℕ
  pub trigger : SyncRunTrigger
  pub status : SyncRunStatus
  pub cancel_reason : Option SyncRunCancelReason
  pub superseded_by : Option ℕ
  pub per_source_state : List (PerSourceState E)

abbrev pub is_completed : SyncRunStatus → Bool
is_completed completed = true
is_completed running = false
is_completed cancelled = false
is_completed failed = false

abbrev pub is_running : SyncRunStatus → Bool
is_running running = true
is_running completed = false
is_running cancelled = false
is_running failed = false
