-- ===== src/Generate/World.antt =====
-- The state that the tasks of report runs share, where a task may wait, and what it meets there: the
-- map of runs in flight, the cancel tokens, and the tables, each with what a write of it does.
use dayseam.Prelude.{
  ℕ, Bool, true, false, List, [], ◌∷◌, Option, none, some, nat_eqb, any, if◌then◌else◌,
}
use dayseam.Prelude.Results.{Result, ok, err}
use dayseam.Text.{Text}
use dayseam.Activity.{ActivityEvent}
use dayseam.Report.{MergeRequestArtifact}
use dayseam.Runs.{SyncRun, PerSourceState, SyncRunTrigger, running}
use dayseam.SyncRuns.{DbError, conflict, sqlx}
use dayseam.Generate.{
  InFlightKey, in_flight_key_eq, InFlightEntry, InFlight, GenerateOutcome, PerSourceResult, Split,
}

-- Where a run waits, with the variables that it holds there.
pub data Stage (V A E D : Type 0) : Type 0 where
  idle : Stage V A E D
  swapped : Option ℕ → Stage V A E D
  signalled : Option ℕ → Stage V A E D
  rejected : Stage V A E D
  recorded : Option ℕ → Stage V A E D
  spawned : Stage V A E D
  fetched : List (PerSourceResult V A E) → Stage V A E D
  stopped : List (PerSourceResult V A E) → Stage V A E D
  cancelling : List (PerSourceResult V A E) → Option ℕ → Stage V A E D
  collected : Split V A E → Stage V A E D
  stored : Split V A E → Stage V A E D
  cleared : ℕ → D → List (PerSourceState E) → Stage V A E D
  drafted : ℕ → List (PerSourceState E) → Stage V A E D
  failing : List (PerSourceState E) → Stage V A E D
  ending : GenerateOutcome → Stage V A E D
  over : GenerateOutcome → Stage V A E D

-- A row of `report_drafts`.
pub record DraftRow (D : Type 0) : Type 0 where
  pub id : ℕ
  pub draft : D
  pub sync_run_id : ℕ

pub record World (V A E D : Type 0) : Type 0 where
  pub in_flight : InFlight
  pub fired : ℕ → Bool
  pub sync_runs : List (SyncRun E)
  pub activity_events : List (ActivityEvent V)
  pub report_drafts : List (DraftRow D)
  pub stage : ℕ → Stage V A E D

pub record Answer (V A E : Type 0) : Type 0 where
  pub available : Bool
  pub now : ℕ
  pub per_source : List (PerSourceResult V A E)
  pub draft_id : ℕ

pub record GenerateRequest : Type 0 where
  pub key : InFlightKey
  pub trigger : SyncRunTrigger

-- How JSON holds commits, the passes over the events, the report engine, and the write of the events.
pub record Engine (V A E D : Type 0) : Type 0 where
  pub commit_shas : V → Option (List (Option Text))
  pub pipeline : List (ActivityEvent V) → List MergeRequestArtifact → List (ActivityEvent V)
  pub report_of : ℕ → Split V A E → Result E D
  pub insert_many :
      List (ActivityEvent V) → List (ActivityEvent V) → List (ActivityEvent V) × Result DbError Unit

-- A write to a database that may not answer.
abbrev pub attempt :
    {R X : Type 0}
    → Bool
    → (List R → List R × Result DbError X)
    → List R
    → List R × Result DbError X
attempt true write rows = write rows
attempt false write rows = (rows, err sqlx)

abbrev pub insert_draft :
    {D : Type 0} → DraftRow D → List (DraftRow D) → List (DraftRow D) × Result DbError Unit
insert_draft row rows =
    if any (λ other. nat_eqb other.id row.id) rows
    then (rows, err conflict)
    else (row ∷ rows, ok tt)

abbrev pub run_ids : Option InFlightEntry → Option ℕ
run_ids none = none
run_ids (some entry) = some entry.run_id

-- `token.cancel()` of a run, and of the one before it, if any.
abbrev pub fire : ℕ → (ℕ → Bool) → ℕ → Bool
fire run_id fired j = if nat_eqb j run_id then true else fired j

abbrev pub fire_prior : Option ℕ → (ℕ → Bool) → ℕ → Bool
fire_prior none fired = fired
fire_prior (some prior) fired = fire prior fired

abbrev pub is_nil {ℓ} : {X : Type ℓ} → List X → Bool
is_nil [] = true
is_nil (x ∷ xs) = false

abbrev pub fresh_run : {E : Type 0} → ℕ → ℕ → SyncRunTrigger → SyncRun E
fresh_run run_id started_at trigger = record {
  id = run_id;
  started_at = started_at;
  finished_at = none;
  trigger = trigger;
  status = running;
  cancel_reason = none;
  superseded_by = none;
  per_source_state = [];
}

unfoldable pub either : {X Y : Type 0} → Result DbError X → Y → Y → Y
either (ok done) next refused = next
either (err e) next refused = refused

module _ {V A E D : Type 0} where
  abbrev pub park : ℕ → Stage V A E D → World V A E D → World V A E D
  park id next w = record w { stage = λ j. if nat_eqb j id then next else w.stage j }

  -- A write of the table of runs whose error is logged, and no more.
  abbrev pub change_runs :
      Answer V A E
      → (List (SyncRun E) → List (SyncRun E) × Result DbError Unit)
      → World V A E D
      → World V A E D
  change_runs answer write w = record w {
    sync_runs = (attempt answer.available write w.sync_runs).0;
  }

  abbrev pub write_run :
      ℕ
      → Stage V A E D
      → Stage V A E D
      → List (SyncRun E) × Result DbError Unit
      → World V A E D
      → World V A E D
  write_run id next refused (rows, answered) w =
      park id (either answered next refused) (record w { sync_runs = rows })

  abbrev pub write_events :
      ℕ
      → Stage V A E D
      → Stage V A E D
      → List (ActivityEvent V) × Result DbError Unit
      → World V A E D
      → World V A E D
  write_events id next refused (rows, answered) w =
      park id (either answered next refused) (record w { activity_events = rows })

  abbrev pub write_draft :
      ℕ
      → Stage V A E D
      → Stage V A E D
      → List (DraftRow D) × Result DbError Unit
      → World V A E D
      → World V A E D
  write_draft id next refused (rows, answered) w =
      park id (either answered next refused) (record w { report_drafts = rows })

-- The process before its first run, on a table of runs that an earlier process left.
abbrev pub at_rest :
    {V A E D : Type 0}
    → List (SyncRun E)
    → List (ActivityEvent V)
    → List (DraftRow D)
    → World V A E D
at_rest rows events drafts = record {
  in_flight = [];
  fired = λ j. false;
  sync_runs = rows;
  activity_events = events;
  report_drafts = drafts;
  stage = λ j. idle;
}
