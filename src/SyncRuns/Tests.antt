-- ===== src/SyncRuns/Tests.antt =====
-- The repository on two runs.
use dayseam.Prelude.{ℕ, ◌≡◌, refl, List, [], ◌∷◌, none, some}
use dayseam.Runs.{SyncRun, SyncRunTrigger, running, completed, cancelled, superseded_by, RunStatus}
use dayseam.SyncRuns.{transition, terminate, refers, get}
use dayseam.SyncRuns.Table.{IsKeyed}
use dayseam.SyncRuns.Moves.{
  transition-guarded, guarded, after, after_keeps, Call, inserting, finishing, failing, cancelling,
}
use dayseam.SyncRuns.Wellformed.{IsSound, after-IsSound}

abbrev started : SyncRun ℕ
started = record {
  id = 7;
  started_at = 100;
  finished_at = none;
  trigger = SyncRunTrigger.user;
  status = running;
  cancel_reason = none;
  superseded_by = none;
  per_source_state =
      record {
        source_id = 1;
        status = RunStatus.running;
        started_at = 101;
        finished_at = none;
        fetched_count = 3;
        error = none;
      }
      ∷ [];
}

abbrev finished : SyncRun ℕ
finished = record started {
  id = 5;
  status = completed;
  finished_at = some 90;
  per_source_state = [];
}

abbrev table : List (SyncRun ℕ)
table = started ∷ finished ∷ []

table-IsKeyed : IsKeyed table
unfolding IsKeyed
table-IsKeyed = (refl, (refl, tt))

transition-guarded_example :
    transition 7 cancelled (some 120) (some (superseded_by 5)) (some 5) (some []) table
    ≡ guarded 7
        (terminate cancelled (some 120) (some (superseded_by 5)) (some 5) (some []))
        (refers table (some 5))
        table
        (get 7 table)
transition-guarded_example =
    transition-guarded 7 cancelled (some 120) (some (superseded_by 5)) (some 5) (some []) table
      table-IsKeyed

abbrev calls : List (Call ℕ)
calls =
    inserting (record started { id = 8 })
    ∷ cancelling 7 130 (superseded_by 8) []
    ∷ failing 5 140 []
    ∷ finishing 8 150 []
    ∷ []

after_keeps_example : get 5 (after calls table) ≡ some finished
after_keeps_example = after_keeps calls finished 5 table refl refl

after-IsSound_example : IsSound (after calls table)
after-IsSound_example =
    after-IsSound calls table ((refl, refl), (tt, (tt, (tt, tt))))
      (table-IsKeyed, ((refl, refl, refl), ((refl, refl, refl), tt)))
