-- ===== src/Generate.antt =====
-- crates/dayseam-orchestrator/src/generate.rs: the life of a report run, with the requests and the
-- outcome of crates/dayseam-orchestrator/src/orchestrator.rs. This file has the data, the map of
-- runs in flight, and what a fan-out's results are split into. `V` is the type of JSON values, `A`
-- of artifacts, `E` of errors and `D` of drafts. Each run has one cancel token, which is known by
-- the run's identifier; instants and dates are numbers.
pub mod Artifacts
pub mod World
pub mod Machine
pub mod Flights
pub mod Ends
pub mod Drafts
pub mod Standing
pub mod Spares
pub mod Settles
pub mod Closed
pub mod Counts
mod FanOutTests
mod Tests
use dayseam.Prelude.{
  ℕ, ◌%◌, ◌^◌, ◌≡◌, ◌↔◌, refl, arith, Bool, true, false, not, ◌&&◌, List, [], ◌∷◌, ◌++◌, Option,
  none, some, Eq, ◌==◌, nat_eq, nat_eqb, nat_eqb_iff, length, any, if◌then◌else◌,
}
use dayseam.Prelude.Maps.{lookup, insert, remove}
use dayseam.Prelude.Results.{Result, ok, err}
use dayseam.Text.{Text, text_eq, text_eqb_iff}
use dayseam.Activity.{ActivityEvent}
use dayseam.Runs.{
  PerSourceState, SyncRunStatus, SyncRunCancelReason, completed, cancelled, failed, user,
  superseded_by, RunStatus,
}

pub record InFlightKey : Type 0 where
  pub person_id : ℕ
  pub date : ℕ
  pub template_id : Text

instance abbrev pub in_flight_key_eq : Eq InFlightKey
in_flight_key_eq = record {
  beq = λ a b.
      nat_eqb a.person_id b.person_id && nat_eqb a.date b.date && a.template_id == b.template_id;
  beq_iff = λ a b. ground (
    arith,
    nat_eqb_iff a.person_id b.person_id,
    nat_eqb_iff a.date b.date,
    text_eqb_iff a.template_id b.template_id,
  );
}

-- An entry's token is the one of its run.
pub record InFlightEntry : Type 0 where
  pub run_id : ℕ

pub record GenerateOutcome : Type 0 where
  pub run_id : ℕ
  pub status : SyncRunStatus
  pub draft_id : Option ℕ
  pub cancel_reason : Option SyncRunCancelReason

abbrev pub InFlight : Type 0
InFlight = List (InFlightKey × InFlightEntry)

-- The map's part of `swap_in_flight_and_cancel`: what the mutex guards.
abbrev pub swap_in_flight : InFlightKey → ℕ → InFlight → InFlight × Option InFlightEntry
swap_in_flight key new_run_id in_flight =
    (insert key (record { run_id = new_run_id }) (remove key in_flight), lookup key in_flight)

abbrev pub newer : ℕ → Option InFlightEntry → Option ℕ
newer my_run_id none = none
newer my_run_id (some entry) =
    if not (nat_eqb entry.run_id my_run_id) then some entry.run_id else none

abbrev pub superseded_by_now : InFlight → InFlightKey → ℕ → Option ℕ
superseded_by_now in_flight key my_run_id = newer my_run_id (lookup key in_flight)

abbrev pub is_ours : ℕ → Option InFlightEntry → Bool
is_ours run_id none = false
is_ours run_id (some entry) = nat_eqb entry.run_id run_id

abbrev pub drop_in_flight_if_ours : InFlightKey → ℕ → InFlight → InFlight
drop_in_flight_if_ours key run_id in_flight =
    if is_ours run_id (lookup key in_flight) then remove key in_flight else in_flight

-- Whether `Orchestrator::cancel` finds a run of the identifier, and fires its token.
abbrev pub has_run : ℕ → InFlight → Bool
has_run run_id in_flight = any (λ entry. nat_eqb entry.1.run_id run_id) in_flight

abbrev pub in_flight_count : InFlight → ℕ
in_flight_count = length

-- The reason that `terminate_cancelled` gives.
abbrev pub reason_of : Option ℕ → SyncRunCancelReason
reason_of none = user
reason_of (some new_run_id) = superseded_by new_run_id

abbrev pub outcome_failed : ℕ → GenerateOutcome
outcome_failed run_id = record {
  run_id = run_id;
  status = failed;
  draft_id = none;
  cancel_reason = none;
}

abbrev pub outcome_cancelled : ℕ → SyncRunCancelReason → GenerateOutcome
outcome_cancelled run_id reason = record {
  run_id = run_id;
  status = cancelled;
  draft_id = none;
  cancel_reason = some reason;
}

abbrev pub outcome_completed : ℕ → ℕ → GenerateOutcome
outcome_completed run_id draft_id = record {
  run_id = run_id;
  status = completed;
  draft_id = some draft_id;
  cancel_reason = none;
}

-- The `SyncResult` of a connector.
pub record SyncResult (V A : Type 0) : Type 0 where
  pub events : List (ActivityEvent V)
  pub artifacts : List A

pub record PerSourceResult (V A E : Type 0) : Type 0 where
  pub source_id : ℕ
  pub started_at : ℕ
  pub finished_at : ℕ
  pub outcome : Result E (SyncResult V A)

pub record SourceRunState (E : Type 0) : Type 0 where
  pub status : RunStatus
  pub started_at : ℕ
  pub finished_at : Option ℕ
  pub fetched_count : ℕ
  pub error : Option E

-- The four variables of `split_fan_out`.
pub record Split (V A E : Type 0) : Type 0 where
  pub events : List (ActivityEvent V)
  pub artifacts : List A
  pub per_source_state : List (ℕ × SourceRunState E)
  pub per_source_syncrun : List (PerSourceState E)

module _ {V A E : Type 0} where
  -- The two views of one result: the report's, and the row's with its count in 32 bits.
  abbrev pub report_state : PerSourceResult V A E → Result E (SyncResult V A) → SourceRunState E
  report_state res (ok sync_result) = record {
    status = RunStatus.succeeded;
    started_at = res.started_at;
    finished_at = some res.finished_at;
    fetched_count = length sync_result.events;
    error = none;
  }
  report_state res (err e) = record {
    status = RunStatus.failed;
    started_at = res.started_at;
    finished_at = some res.finished_at;
    fetched_count = 0;
    error = some e;
  }

  abbrev pub row_state : PerSourceResult V A E → Result E (SyncResult V A) → PerSourceState E
  row_state res (ok sync_result) = record {
    source_id = res.source_id;
    status = RunStatus.succeeded;
    started_at = res.started_at;
    finished_at = some res.finished_at;
    fetched_count = length sync_result.events % 2 ^ 32;
    error = none;
  }
  row_state res (err e) = record {
    source_id = res.source_id;
    status = RunStatus.failed;
    started_at = res.started_at;
    finished_at = some res.finished_at;
    fetched_count = 0;
    error = some e;
  }

  abbrev pub events_of : Result E (SyncResult V A) → List (ActivityEvent V)
  events_of (ok sync_result) = sync_result.events
  events_of (err e) = []

  abbrev pub artifacts_of : Result E (SyncResult V A) → List A
  artifacts_of (ok sync_result) = sync_result.artifacts
  artifacts_of (err e) = []

  abbrev pub split_one : Split V A E → PerSourceResult V A E → Split V A E
  split_one s res = record {
    events = s.events ++ events_of res.outcome;
    artifacts = s.artifacts ++ artifacts_of res.outcome;
    per_source_state = insert res.source_id (report_state res res.outcome) s.per_source_state;
    per_source_syncrun = s.per_source_syncrun ++ (row_state res res.outcome ∷ []);
  }

  abbrev pub split_from : Split V A E → List (PerSourceResult V A E) → Split V A E
  split_from s [] = s
  split_from s (res ∷ per_source) = split_from (split_one s res) per_source

  abbrev pub split_fan_out : List (PerSourceResult V A E) → Split V A E
  split_fan_out =
      split_from
        (record { events = []; artifacts = []; per_source_state = []; per_source_syncrun = [] })
