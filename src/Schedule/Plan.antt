-- ===== src/Schedule/Plan.antt =====
-- The planner's three rules, read off the plan as a whole.
use dayseam.Prelude.{
  ℕ, ◌+◌, ◌≤◌, min, ◌≡◌, ◌↔◌, inl, inr, refl, arith, Bool, true, false, List, [], ◌∷◌, ◌++◌, none,
  any, contains, if◌then◌else◌, Every, Bool-cases,
}
use dayseam.Schedule.{
  sort_dates, is_missed, missed_of, plan_next_actions, scheduled, satisfaction, is_final,
  final_pass_actions, run_today_actions, catch_up_actions, ScheduledAction, run_today,
  is_final_pass_of, final_pass_yesterday, catch_up, ScheduleConfig, ScheduleState, Now,
  catch_up_days_hard_cap,
}
use mathlib.Core.List.{append-nil}
use mathlib.Core.Path.{subst}
use dayseam.Schedule.Dates.{Calendar}
use dayseam.Schedule.CatchUp.{
  IsAscending, Earlier, Collected, missed_days-Collected, missed_days_complete, Every-contains,
  Every-sort_dates, Every-weaken, sort_dates-IsAscending, contains-sort_dates,
}

module _ (c : Calendar) where
  open c use {Date, date_eq, earlier, sub_days, sub_days-zero, sub_days-earlier}

  -- The dates that a plan's catch-up actions list.
  abbrev pub catch_ups : List (ScheduledAction c) → List Date
  catch_ups [] = []
  catch_ups (run_today d ∷ r) = catch_ups r
  catch_ups (final_pass_yesterday d ∷ r) = catch_ups r
  catch_ups (catch_up ds ∷ r) = ds ++ catch_ups r

  abbrev is_run_today_of : Date → ScheduledAction c → Bool
  is_run_today_of d (run_today x) = date_eq.beq x d
  is_run_today_of d (final_pass_yesterday x) = false
  is_run_today_of d (catch_up xs) = false

  -- The plan runs this date as today's report; the plan makes a final pass over this date.
  abbrev pub runs_today : List (ScheduledAction c) → Date → Bool
  runs_today actions d = any (is_run_today_of d) actions

  abbrev pub final_passes : List (ScheduledAction c) → Date → Bool
  final_passes actions d = any (is_final_pass_of c d) actions

  catch_ups-catch_up_actions :
      (ds : List Date) → catch_ups (catch_up_actions c ds) ≡ sort_dates c ds
  unfolding catch_up_actions
  catch_ups-catch_up_actions [] = unfold sort_dates in refl
  catch_ups-catch_up_actions (d ∷ ds) = append-nil _

  runs_today-catch_up_actions :
      (ds : List Date) (d : Date)
      → (runs_today (catch_up_actions c ds) d ≡ false)
        × (final_passes (catch_up_actions c ds) d ≡ false)
  unfolding catch_up_actions is_final_pass_of
  runs_today-catch_up_actions [] d = (refl, refl)
  runs_today-catch_up_actions (x ∷ xs) d = (refl, refl)

  module _ (now : Now c) (cfg : ScheduleConfig c) (state : ScheduleState c) where
    abbrev plan : List (ScheduledAction c)
    plan = plan_next_actions c now cfg state

    catch_ups-plan :
        catch_ups plan ≡ (if cfg.enabled then sort_dates c (missed_of c now cfg state) else [])
    unfolding plan_next_actions final_pass_actions run_today_actions
    catch_ups-plan = ground (arith, catch_ups-catch_up_actions (missed_of c now cfg state))

    catch_ups_on : cfg.enabled ≡ true → catch_ups plan ≡ sort_dates c (missed_of c now cfg state)
    catch_ups_on on = ground (arith, catch_ups-plan)

    catch_ups_off : cfg.enabled ≡ false → catch_ups plan ≡ []
    catch_ups_off off = ground (arith, catch_ups-plan)

    -- A plan runs today's report, for the date of `now`, if and only if the scheduler is enabled,
    -- no run of the user is in flight, today is a scheduled day, the time is in the window, both
    -- ends included, and no recorded run satisfies today.
    pub plan_next_actions-runs_today :
        (d : Date)
        → (runs_today plan d ≡ true) ↔ (
            (cfg.enabled ≡ true)
            × (state.user_run_in_flight ≡ false)
            × (d ≡ now.date)
            × (scheduled c cfg now.date ≡ true)
            × (cfg.earliest_start ≤ now.time)
            × (now.time ≤ cfg.target_time)
            × (satisfaction c state now.date ≡ none))
    unfolding plan_next_actions run_today_actions final_pass_actions
    plan_next_actions-runs_today d = ground (
      arith,
      date_eq.beq_iff now.date d,
      runs_today-catch_up_actions (missed_of c now cfg state) d,
    )

    -- A plan makes a final pass, over the day before the date of `now`, if and only if the
    -- scheduler is enabled, no run of the user is in flight, that day is a scheduled day, and no
    -- recorded run was a final pass over it.
    pub plan_next_actions-final_passes :
        (d : Date)
        → (final_passes plan d ≡ true) ↔ (
            (cfg.enabled ≡ true)
            × (state.user_run_in_flight ≡ false)
            × (d ≡ sub_days now.date 1)
            × (scheduled c cfg (sub_days now.date 1) ≡ true)
            × (is_final (satisfaction c state (sub_days now.date 1)) ≡ false))
    unfolding plan_next_actions run_today_actions final_pass_actions is_final_pass_of
    plan_next_actions-final_passes d = ground (
      arith,
      date_eq.beq_iff (sub_days now.date 1) d,
      runs_today-catch_up_actions (missed_of c now cfg state) d,
    )

    abbrev keep : Date → Bool
    keep =
        is_missed c (sub_days now.date 1)
          (final_pass_actions c (sub_days now.date 1) cfg state
            ++ run_today_actions c now cfg state)
          cfg state

    abbrev window : ℕ
    window = min cfg.catch_up_days catch_up_days_hard_cap

    missed_of-Collected : Collected c keep now.date (1 + window) (missed_of c now cfg state)
    unfolding missed_of
    missed_of-Collected = missed_days-Collected c keep now.date window 1 [] (omega arith) (tt, tt)

    past : (d : Date) (k : ℕ) → 1 ≤ k → d ≡ sub_days now.date k → Earlier c d now.date
    past d k h e = rw e (
        subst (λ t. Earlier c (sub_days now.date k) t) (sub_days-zero now.date)
          (sub_days-earlier now.date 0 k h))

    -- The dates of the catch-up prompt stand in order, the oldest first and none twice, and all
    -- are before today.
    pub plan_next_actions-IsAscending :
        IsAscending c (catch_ups plan) × Every (λ d. Earlier c d now.date) (catch_ups plan)
    plan_next_actions-IsAscending = elim (Bool-cases cfg.enabled) [
      | inl on ↦ rw (catch_ups_on on) (
        sort_dates-IsAscending c (missed_of c now cfg state) missed_of-Collected.0,
        Every-sort_dates c (λ d. Earlier c d now.date) (missed_of c now cfg state)
            (Every-weaken c _ _ (λ d (k, k1, kw, e, _). past d k k1 e) (missed_of c now cfg state)
              missed_of-Collected.1),
      )
      | inr off ↦ rw (catch_ups_off off) (tt, tt)
    ]

    -- What the last test of rule 3 comes to: a day goes to the prompt only if the same plan makes
    -- no final pass over it.
    keep_lem :
        (d : Date)
        → cfg.enabled ≡ true
        → (keep d ≡ true) ↔ (
            (scheduled c cfg d ≡ true)
            × (satisfaction c state d ≡ none)
            × (contains ⦃e = date_eq⦄ state.skipped_this_session d ≡ false)
            × (final_passes plan d ≡ false))
    unfolding plan_next_actions run_today_actions final_pass_actions is_missed
    keep_lem d on = ground (
      arith,
      date_eq.beq_iff (sub_days now.date 1) d,
      date_eq.beq_iff d (sub_days now.date 1),
      date_eq.beq_iff (sub_days now.date 1) (sub_days now.date 1),
      runs_today-catch_up_actions (missed_of c now cfg state) d,
    )

    -- If the scheduler is enabled, the catch-up prompt lists a date if and only if it is 1 to
    -- `catch_up_days` days before today, 30 at most, it is a scheduled day that no recorded run
    -- satisfies, it was not skipped in this session, and the same plan makes no final pass over it.
    pub plan_next_actions-catch_ups :
        (d : Date)
        → cfg.enabled ≡ true
        → (contains ⦃e = date_eq⦄ (catch_ups plan) d ≡ true) ↔ (
            ((k : ℕ) × (1 ≤ k) × (k ≤ min cfg.catch_up_days 30) × (d ≡ sub_days now.date k))
            × (scheduled c cfg d ≡ true)
            × (satisfaction c state d ≡ none)
            × (contains ⦃e = date_eq⦄ state.skipped_this_session d ≡ false)
            × (final_passes plan d ≡ false))
    plan_next_actions-catch_ups d on =
        rw (catch_ups_on on, contains-sort_dates c (missed_of c now cfg state) d)
          (
            λ m.
                let (k, k1, kw, e, kept) =
                  Every-contains c _ (missed_of c now cfg state) d missed_of-Collected.1 m in
                let (a, b, s, f) = (keep_lem d on).0 kept in ((k, k1, omega arith, e), a, b, s, f),
            λ ((k, k1, kw, e), a, b, s, f).
                let kept : keep (sub_days now.date k) ≡ true =
                  rw e at ((keep_lem d on).1 (a, b, s, f)) in
                rw e (
                  unfold missed_of in
                  missed_days_complete c keep now.date window 1 [] k k1 (omega arith) kept),
          )
