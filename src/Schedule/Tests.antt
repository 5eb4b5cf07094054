-- ===== src/Schedule/Tests.antt =====
-- The planner on a calendar of numbers that count the days down, with weeks of seven days.
use dayseam.Prelude.{
  ℕ, ◌+◌, ◌%◌, ◌≤◌, ◌≡◌, ◌≢◌, ◌↔◌, ◌⊎◌, refl, arith, min, Bool, true, false, List, [], ◌∷◌, ◌++◌,
  Option, none, some, ltb, any, contains, Every, nat_eq,
}
use dayseam.Prelude.Results.{Result, ok, err}
use dayseam.Runs.{
  SyncRunCancelReason, completed, failed, scheduler, SchedulerTriggerKind, SyncRunTrigger,
}
use dayseam.Schedule.{
  ScheduleConfig, ScheduleState, Now, SchedulerRunRow, SatisfactionKind, scheduled, satisfaction,
  is_final, from_sync_runs, plan_next_actions,
}
use dayseam.Schedule.Dates.{Calendar}
use dayseam.Schedule.Plan.{
  catch_ups, runs_today, final_passes, plan_next_actions-runs_today, plan_next_actions-final_passes,
  plan_next_actions-IsAscending, plan_next_actions-catch_ups,
}
use dayseam.Schedule.CatchUp.{IsAscending, Earlier}
use dayseam.Schedule.Satisfaction.{runs_for, final_pass_for, strongest, from_sync_runs_lem}
use dayseam.Schedule.CatchUpRuns.{plan_of, catch_up_run_unsatisfied}
use dayseam.Schedule.Gate.{
  Sink, SinkCapabilities, GenerateOutcome, run_scheduled_action, run_scheduled_action-err, IsSafe,
  ScheduleRunError, generate_join_error, generate_did_not_complete, save, run_scheduled_action-ok,
  sink_kind_not_registered, sink_not_safe_for_unattended,
}

abbrev days : Calendar
days = record {
  Date = ℕ;
  Weekday = ℕ;
  Instant = ℕ;
  Offset = Unit;
  date_eq = nat_eq;
  weekday_eq = nat_eq;
  earlier = λ a b. ltb b a;
  weekday = λ d. d % 7;
  sub_days = λ d n. d + n;
  date_naive = λ tz t. t;
  earlier_irrefl = λ d. ground arith;
  earlier_trans = λ a b c p q. ground arith;
  earlier_total = λ a b p q. ground arith;
  sub_days-zero = λ d. omega arith;
  sub_days-earlier = λ d m n p. ground arith;
}

abbrev config : ScheduleConfig days
config = record {
  enabled = true;
  days_of_week = 0 ∷ 1 ∷ 2 ∷ 3 ∷ 4 ∷ [];
  target_time = 1080;
  earliest_start = 540;
  catch_up_days = 5;
  sink_id = some 1;
  template_id = none;
}

abbrev state : ScheduleState days
state = record {
  satisfied = (102, SatisfactionKind.in_day) ∷ [];
  skipped_this_session = [];
  user_run_in_flight = false;
}

abbrev now : Now days
now = record { date = 100; time = 600 }

plan_next_actions-runs_today_example :
    (runs_today days (plan_next_actions days now config state) 100 ≡ true) ↔ (
      (true ≡ true)
      × (false ≡ false)
      × (◌≡◌ {A = ℕ} 100 100)
      × (scheduled days config 100 ≡ true)
      × (540 ≤ 600)
      × (600 ≤ 1080)
      × (satisfaction days state 100 ≡ none))
plan_next_actions-runs_today_example = plan_next_actions-runs_today days now config state 100

plan_next_actions-final_passes_example :
    (final_passes days (plan_next_actions days now config state) 101 ≡ true) ↔ (
      (true ≡ true)
      × (false ≡ false)
      × (◌≡◌ {A = ℕ} 101 (100 + 1))
      × (scheduled days config (100 + 1) ≡ true)
      × (is_final (satisfaction days state (100 + 1)) ≡ false))
plan_next_actions-final_passes_example = plan_next_actions-final_passes days now config state 101

plan_next_actions-IsAscending_example :
    IsAscending days (catch_ups days (plan_next_actions days now config state))
    × Every (λ d. Earlier days d 100) (catch_ups days (plan_next_actions days now config state))
plan_next_actions-IsAscending_example = plan_next_actions-IsAscending days now config state

plan_next_actions-catch_ups_example :
    (contains ⦃e = nat_eq⦄ (catch_ups days (plan_next_actions days now config state)) 103 ≡ true)
    ↔ (((k : ℕ) × (1 ≤ k) × (k ≤ min 5 30) × (103 ≡ 100 + k))
        × (scheduled days config 103 ≡ true)
        × (satisfaction days state 103 ≡ none)
        × (contains ⦃e = nat_eq⦄ state.skipped_this_session 103 ≡ false)
        × (final_passes days (plan_next_actions days now config state) 103 ≡ false))
plan_next_actions-catch_ups_example = plan_next_actions-catch_ups days now config state 103 refl

abbrev rows : List (SchedulerRunRow days)
rows =
    record { status = completed; trigger = scheduler SchedulerTriggerKind.in_day; started_at = 102 }
    ∷ record { status = failed; trigger = SyncRunTrigger.user; started_at = 101 }
    ∷ []

from_sync_runs_lem_example :
    (satisfaction days (from_sync_runs days rows tt) 102
      ≡ strongest none (any (final_pass_for days tt 102) rows) (any (runs_for days tt 102) rows))
    × ((from_sync_runs days rows tt).skipped_this_session ≡ [])
    × ((from_sync_runs days rows tt).user_run_in_flight ≡ false)
from_sync_runs_lem_example = from_sync_runs_lem days tt rows 102

abbrev catch_up_row : SchedulerRunRow days
catch_up_row = record {
  status = completed;
  trigger = scheduler SchedulerTriggerKind.catch_up;
  started_at = 100;
}

catch_up_run_unsatisfied_example :
    ((d : ℕ)
      → contains ⦃e = nat_eq⦄
          (catch_ups days (plan_of days tt now config [] false (rows ++ catch_up_row ∷ [])))
          d
        ≡ contains ⦃e = nat_eq⦄ (catch_ups days (plan_of days tt now config [] false rows)) d)
    × (runs_today days (plan_of days tt now config [] false (rows ++ catch_up_row ∷ [])) 100
        ≡ false)
catch_up_run_unsatisfied_example =
    catch_up_run_unsatisfied days tt now config [] false rows catch_up_row refl refl refl refl

-- One kind of sink, with an adapter; a world that counts what is written.
abbrev registry : Bool → ℕ → Option SinkCapabilities
registry safe kind = some (record {
  local_only = true;
  remote_write = false;
  interactive_only = false;
  safe_for_unattended = safe;
})

abbrev generate : ℕ → ℕ → ℕ × Option GenerateOutcome
generate request w =
    (w + 1, some (record { status = completed; cancel_reason = none; draft_id = some request }))

abbrev save_report : ℕ → Sink ℕ → ℕ → ℕ × Result ℕ (List ℕ)
save_report draft_id sink w = (w + 1, ok (draft_id ∷ []))

abbrev sink : Sink ℕ
sink = record { id = 3; kind = 4 }

abbrev gated : ℕ × Result (ScheduleRunError ℕ ℕ) (List ℕ)
gated = run_scheduled_action (registry false) generate save_report 9 sink 0

run_scheduled_action-err_example :
    ((gated.1 ≡ err (sink_kind_not_registered 4)) ↔ ((registry false 4 ≡ none) × (sink.kind ≡ 4)))
    × ((gated.1 ≡ err (sink_not_safe_for_unattended 3)) ↔ (
        ((capabilities : SinkCapabilities) × (registry false 4 ≡ some capabilities)
          × (capabilities.safe_for_unattended ≡ false))
        × (sink.id ≡ 3)))
    × ((gated.1 ≡ err generate_join_error)
        ↔ (IsSafe (registry false) generate save_report sink × ((generate 9 0).1 ≡ none)))
    × ((gated.1 ≡ err (generate_did_not_complete failed none)) ↔ (
        IsSafe (registry false) generate save_report sink
        × ((outcome : GenerateOutcome) × ((generate 9 0).1 ≡ some outcome)
            × (outcome.status ≡ failed)
            × (((outcome.status ≢ completed) × (outcome.cancel_reason ≡ none))
                ⊎ ((outcome.status ≡ completed)
                    × (outcome.draft_id ≡ none)
                    × (◌≡◌ {A = Option SyncRunCancelReason} none none))))))
    × ((gated.1 ≡ err (save 7)) ↔ (
        IsSafe (registry false) generate save_report sink
        × ((outcome : GenerateOutcome) × (draft_id : ℕ) × ((generate 9 0).1 ≡ some outcome)
            × (outcome.status ≡ completed)
            × (outcome.draft_id ≡ some draft_id)
            × ((save_report draft_id sink (generate 9 0).0).1 ≡ err 7))))
    × (IsSafe (registry false) generate save_report sink ⊎ (gated.0 ≡ 0))
run_scheduled_action-err_example =
    run_scheduled_action-err (registry false) generate save_report 9 sink 0 3 4 7 failed none

ran : (run_scheduled_action (registry true) generate save_report 9 sink 0).1 ≡ ok (9 ∷ [])
unfolding run_scheduled_action
ran = refl

run_scheduled_action-ok_example :
    ((capabilities : SinkCapabilities) × (registry true 4 ≡ some capabilities)
      × (capabilities.safe_for_unattended ≡ true))
    × ((outcome : GenerateOutcome) × (draft_id : ℕ) × ((generate 9 0).1 ≡ some outcome)
        × (outcome.status ≡ completed)
        × (outcome.draft_id ≡ some draft_id)
        × ((save_report draft_id sink (generate 9 0).0).1 ≡ ok (9 ∷ [])))
run_scheduled_action-ok_example =
    run_scheduled_action-ok (registry true) generate save_report 9 sink 0 (9 ∷ []) ran
