-- ===== src/Startup/Tests.antt =====
-- The recovery on a table with one run that a crash left behind.
use dayseam.Prelude.{ℕ, ◌≡◌, refl, List, [], ◌∷◌, none, some}
use mathlib.Core.Option
use dayseam.Prelude.Results.{ok}
use dayseam.Runs.{SyncRun, SyncRunTrigger, running, completed, RunStatus}
use dayseam.SyncRuns.{get}
use dayseam.SyncRuns.Table.{IsKeyed}
use dayseam.Startup.{recover_crashed_runs}
use dayseam.Startup.Recovery.{recovered, recover_crashed_runs_lem}

abbrev crashed : SyncRun ℕ
crashed = record {
  id = 7;
  started_at = 100;
  finished_at = none;
  trigger = SyncRunTrigger.user;
  status = running;
  cancel_reason = none;
  superseded_by = none;
  per_source_state =
      record {
        source_id = 1;
        status = RunStatus.running;
        started_at = 101;
        finished_at = none;
        fetched_count = 3;
        error = none;
      }
      ∷ [];
}

abbrev table : List (SyncRun ℕ)
table =
    crashed
    ∷ record crashed { id = 5; status = completed; finished_at = some 90; per_source_state = [] }
    ∷ []

table-IsKeyed : IsKeyed table
unfolding IsKeyed
table-IsKeyed = (refl, (refl, tt))

recover_crashed_runs_lem_example :
    ((recover_crashed_runs 42 200 table).1 ≡ ok 1)
    × ((id : ℕ)
        → get id (recover_crashed_runs 42 200 table).0
          ≡ Option.map (recovered 42 200) (get id table))
recover_crashed_runs_lem_example = recover_crashed_runs_lem 42 200 table table-IsKeyed
