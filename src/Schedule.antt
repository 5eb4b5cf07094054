-- ===== src/Schedule.antt =====
-- crates/dayseam-orchestrator/src/schedule/mod.rs, with the configuration of
-- crates/dayseam-core/src/types/schedule.rs: the pure planner, the state that it reads off the
-- recorded runs, and the gate in front of a scheduled write.
mod Dates
mod CatchUp
mod Plan
mod Satisfaction
mod CatchUpRuns
mod Gate
mod Tests
use dayseam.Prelude.{
  ℕ, zero, suc, ◌+◌, Bool, true, false, not, ◌&&◌, ◌||◌, List, [], ◌∷◌, ◌++◌, Option, none, some,
  leb, min, any, contains, Eq, ◌==◌, if◌then◌else◌,
}
use dayseam.Prelude.Maps.{lookup, insert}
use dayseam.Text.{Text}
use dayseam.Runs.{
  SyncRunStatus, is_completed, SchedulerTriggerKind, SyncRunTrigger, user, retry, scheduler,
}
use Dates.{Calendar}

abbrev pub catch_up_days_hard_cap : ℕ
catch_up_days_hard_cap = 30

pub data SatisfactionKind : Type 0 where
  in_day final_pass : SatisfactionKind

abbrev pub is_some {ℓ} : {A : Type ℓ} → Option A → Bool
is_some none = false
is_some (some a) = true

abbrev pub is_final : Option SatisfactionKind → Bool
is_final none = false
is_final (some SatisfactionKind.in_day) = false
is_final (some SatisfactionKind.final_pass) = true

module _ (c : Calendar) where
  open c use {
    Date, Weekday, Instant, Offset, date_eq, weekday_eq, earlier, weekday, sub_days, date_naive,
  }

  -- A wall-clock time is the time since midnight.
  pub record ScheduleConfig : Type 0 where
    pub enabled : Bool
    pub days_of_week : List Weekday
    pub target_time : ℕ
    pub earliest_start : ℕ
    pub catch_up_days : ℕ
    pub sink_id : Option ℕ
    pub template_id : Option Text

  pub record ScheduleState : Type 0 where
    pub satisfied : List (Date × SatisfactionKind)
    pub skipped_this_session : List Date
    pub user_run_in_flight : Bool

  pub record SchedulerRunRow : Type 0 where
    pub status : SyncRunStatus
    pub trigger : SyncRunTrigger
    pub started_at : Instant

  pub data ScheduledAction : Type 0 where
    run_today : Date → ScheduledAction
    final_pass_yesterday : Date → ScheduledAction
    catch_up : List Date → ScheduledAction

  -- `now`, as its date and its wall-clock time.
  pub record Now : Type 0 where
    pub date : Date
    pub time : ℕ

  -- The date that a recorded run satisfies, and how.
  pub target : Date → SyncRunTrigger → Date × SatisfactionKind
  target started (scheduler SchedulerTriggerKind.in_day) = (started, in_day)
  target started (scheduler SchedulerTriggerKind.catch_up) = (started, in_day)
  target started (scheduler SchedulerTriggerKind.final_pass) = (sub_days started 1, final_pass)
  target started user = (started, in_day)
  target started (retry previous) = (started, in_day)

  -- `entry(date).and_modify(…).or_insert(kind)`
  upgraded : SatisfactionKind → Option SatisfactionKind → SatisfactionKind
  upgraded kind none = kind
  upgraded final_pass (some existing) = final_pass
  upgraded in_day (some existing) = existing

  satisfy :
      List (Date × SatisfactionKind) → Date × SatisfactionKind → List (Date × SatisfactionKind)
  unfolding upgraded
  satisfy m (d, kind) = insert ⦃e = date_eq⦄ d (upgraded kind (lookup ⦃e = date_eq⦄ d m)) m

  pub satisfied_by :
      Offset
      → List (Date × SatisfactionKind)
      → List SchedulerRunRow
      → List (Date × SatisfactionKind)
  unfolding target satisfy
  satisfied_by tz m [] = m
  satisfied_by tz m (row ∷ rows) =
      satisfied_by tz
        (if not (is_completed row.status)
          then m
          else satisfy m (target (date_naive tz row.started_at) row.trigger))
        rows

  pub from_sync_runs : List SchedulerRunRow → Offset → ScheduleState
  unfolding satisfied_by
  from_sync_runs rows tz = record {
    satisfied = satisfied_by tz [] rows;
    skipped_this_session = [];
    user_run_in_flight = false;
  }

  pub scheduled : ScheduleConfig → Date → Bool
  scheduled cfg d = contains ⦃e = weekday_eq⦄ cfg.days_of_week (weekday d)

  pub satisfaction : ScheduleState → Date → Option SatisfactionKind
  satisfaction state d = lookup ⦃e = date_eq⦄ d state.satisfied

  -- Rule 2.
  pub final_pass_actions : Date → ScheduleConfig → ScheduleState → List ScheduledAction
  unfolding scheduled satisfaction
  final_pass_actions yesterday cfg state =
      if not state.user_run_in_flight
        && scheduled cfg yesterday
        && not (is_final (satisfaction state yesterday))
      then final_pass_yesterday yesterday ∷ []
      else []

  -- Rule 1.
  pub run_today_actions : Now → ScheduleConfig → ScheduleState → List ScheduledAction
  unfolding scheduled satisfaction
  run_today_actions now cfg state =
      if not state.user_run_in_flight
        && scheduled cfg now.date
        && leb cfg.earliest_start now.time
        && leb now.time cfg.target_time
        && not (is_some (satisfaction state now.date))
      then run_today now.date ∷ []
      else []

  -- `matches!(a, FinalPassYesterday(dt) if *dt == yesterday)`
  pub is_final_pass_of : Date → ScheduledAction → Bool
  is_final_pass_of yesterday (final_pass_yesterday dt) = date_eq.beq dt yesterday
  is_final_pass_of yesterday (run_today d) = false
  is_final_pass_of yesterday (catch_up ds) = false

  -- The body of rule 3's loop: whether a past day goes into `missed`.
  pub is_missed : Date → List ScheduledAction → ScheduleConfig → ScheduleState → Date → Bool
  unfolding scheduled satisfaction is_final_pass_of
  is_missed yesterday actions cfg state d =
      if not (scheduled cfg d)
      then false
      else if is_some (satisfaction state d)
      then false
      else if contains ⦃e = date_eq⦄ state.skipped_this_session d
      then false
      else not (date_eq.beq d yesterday && any (is_final_pass_of yesterday) actions)

  -- `for offset in 1..=n`, as the rounds left and the next offset.
  pub missed_days : (Date → Bool) → Date → ℕ → ℕ → List Date → List Date
  missed_days keep today zero offset missed = missed
  missed_days keep today (suc n) offset missed =
      let d = sub_days today offset in
      missed_days keep today n (offset + 1) (if keep d then missed ++ (d ∷ []) else missed)

  -- `sort`, as an insertion sort.
  pub insert_date : Date → List Date → List Date
  insert_date d [] = d ∷ []
  insert_date d (x ∷ xs) = if earlier x d then x ∷ insert_date d xs else d ∷ x ∷ xs

  pub sort_dates : List Date → List Date
  unfolding insert_date
  sort_dates [] = []
  sort_dates (d ∷ ds) = insert_date d (sort_dates ds)

  -- Rule 3's tail: `missed.sort()` and the push of a list that is not empty.
  pub catch_up_actions : List Date → List ScheduledAction
  unfolding sort_dates
  catch_up_actions [] = []
  catch_up_actions (d ∷ ds) = catch_up (sort_dates (d ∷ ds)) ∷ []

  pub missed_of : Now → ScheduleConfig → ScheduleState → List Date
  unfolding missed_days is_missed final_pass_actions run_today_actions
  missed_of now cfg state =
      let yesterday = sub_days now.date 1 in
      let actions = final_pass_actions yesterday cfg state ++ run_today_actions now cfg state in
      missed_days (is_missed yesterday actions cfg state) now.date
        (min cfg.catch_up_days catch_up_days_hard_cap) 1 []

  pub plan_next_actions : Now → ScheduleConfig → ScheduleState → List ScheduledAction
  unfolding final_pass_actions run_today_actions catch_up_actions missed_of
  plan_next_actions now cfg state =
      if not cfg.enabled
      then []
      else (final_pass_actions (sub_days now.date 1) cfg state
          ++ (run_today_actions now cfg state ++ catch_up_actions (missed_of now cfg state)))
