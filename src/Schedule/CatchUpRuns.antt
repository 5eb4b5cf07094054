-- ===== src/Schedule/CatchUpRuns.antt =====
-- What a catch-up run does to later plans.
use dayseam.Prelude.{
  ℕ, ◌≤◌, ◌≡◌, ◌↔◌, inl, inr, refl, sym, ◌∙◌, arith, Bool, true, false, ◌||◌, List, [], ◌∷◌, ◌++◌,
  none, any, any-append, contains, Bool-cases, beq_refl,
}
use dayseam.Runs.{completed, SchedulerTriggerKind, scheduler}
use dayseam.Schedule.{
  SchedulerRunRow, target, from_sync_runs, satisfaction, plan_next_actions, Now, ScheduleConfig,
  ScheduleState, ScheduledAction,
}
use mathlib.Core.Bool.{false≢true}
use mathlib.Core.Path.{subst}
use dayseam.Schedule.Dates.{Calendar}
use dayseam.Schedule.Plan.{
  catch_ups, runs_today, final_passes, plan_next_actions-catch_ups, plan_next_actions-final_passes,
  plan_next_actions-runs_today,
}
use dayseam.Schedule.Satisfaction.{runs_for, final_pass_for, strongest, from_sync_runs_lem}

eq_of_iff : (a b : Bool) → ((a ≡ true) ↔ (b ≡ true)) → a ≡ b
eq_of_iff a b h = ground (arith, h.0, h.1)

module _ (c : Calendar) (tz : c.Offset) (now : Now c) (cfg : ScheduleConfig c)
    (skipped : List c.Date) (busy : Bool) where
  open c use {
    Date, date_eq, earlier, earlier_irrefl, sub_days, sub_days-zero, sub_days-earlier, date_naive,
  }

  -- The caller adds what the session knows to what the runs say.
  abbrev pub state_of : List (SchedulerRunRow c) → ScheduleState c
  state_of rows = record (from_sync_runs c rows tz) {
    skipped_this_session = skipped;
    user_run_in_flight = busy;
  }

  abbrev pub plan_of : List (SchedulerRunRow c) → List (ScheduledAction c)
  plan_of rows = plan_next_actions c now cfg (state_of rows)

  satisfaction-state_of :
      (rows : List (SchedulerRunRow c)) (d : Date)
      → satisfaction c (state_of rows) d
        ≡ strongest none (any (final_pass_for c tz d) rows) (any (runs_for c tz d) rows)
  unfolding satisfaction
  satisfaction-state_of rows d = (from_sync_runs_lem c tz rows d).0

  module _ (rows : List (SchedulerRunRow c)) (row : SchedulerRunRow c)
      (done : row.status ≡ completed) (kind : row.trigger ≡ scheduler SchedulerTriggerKind.catch_up)
      (started : date_naive tz row.started_at ≡ now.date) where
    runs_for_row : (d : Date) → runs_for c tz d row ≡ date_eq.beq now.date d
    unfolding target
    runs_for_row d = rw (done, kind, started) refl

    final_pass_for_row : (d : Date) → final_pass_for c tz d row ≡ false
    unfolding target
    final_pass_for_row d = rw (done, kind, started) (ground arith)

    satisfaction_with :
        (d : Date)
        → satisfaction c (state_of (rows ++ row ∷ [])) d
          ≡ strongest none
              (any (final_pass_for c tz d) rows)
              (any (runs_for c tz d) rows || date_eq.beq now.date d)
    satisfaction_with d =
        satisfaction-state_of (rows ++ row ∷ []) d
        ∙ ground (
          arith,
          any-append (final_pass_for c tz d) rows (row ∷ []),
          any-append (runs_for c tz d) rows (row ∷ []),
          runs_for_row d,
          final_pass_for_row d,
        )

    satisfaction_past :
        (d : Date)
        → earlier d now.date ≡ true
        → satisfaction c (state_of (rows ++ row ∷ [])) d ≡ satisfaction c (state_of rows) d
    satisfaction_past d h =
        let other : date_eq.beq now.date d ≡ false = elim (Bool-cases (date_eq.beq now.date d)) [
          | inl e ↦ absurd (
              false≢true (
                sym (earlier_irrefl d)
                ∙ subst (λ t. earlier d t ≡ true) ((date_eq.beq_iff now.date d).0 e) h))
          | inr e ↦ e
        ] in
        satisfaction_with d ∙ sym (satisfaction-state_of rows d ∙ ground (arith, other))

    past : (d : Date) (k : ℕ) → 1 ≤ k → d ≡ sub_days now.date k → earlier d now.date ≡ true
    past d k h e = rw e (
        subst (λ t. earlier (sub_days now.date k) t ≡ true) (sub_days-zero now.date)
          (sub_days-earlier now.date 0 k h))

    final_passes_with :
        (d : Date) → final_passes c (plan_of (rows ++ row ∷ [])) d ≡ final_passes c (plan_of rows) d
    final_passes_with d =
        let yesterday = sub_days now.date 1 in
        let same = satisfaction_past yesterday (past yesterday 1 (omega arith) refl) in
        eq_of_iff _ _ (
          λ h.
              let (e, b, y, s, f) =
                (plan_next_actions-final_passes c now cfg (state_of (rows ++ row ∷ [])) d).0 h in
              (plan_next_actions-final_passes c now cfg (state_of rows) d).1
                (e, b, y, s, rw (← same) f),
          λ h.
              let (e, b, y, s, f) =
                (plan_next_actions-final_passes c now cfg (state_of rows) d).0 h in
              (plan_next_actions-final_passes c now cfg (state_of (rows ++ row ∷ [])) d).1
                (e, b, y, s, rw same f),
        )

    today_satisfied : runs_today c (plan_of (rows ++ row ∷ [])) now.date ≡ false
    today_satisfied = elim (Bool-cases (runs_today c (plan_of (rows ++ row ∷ [])) now.date)) [
      | inl h ↦
          let (_, _, _, _, _, _, unsatisfied) =
            (plan_next_actions-runs_today c now cfg (state_of (rows ++ row ∷ [])) now.date).0 h in
          absurd (ground (arith, satisfaction_with now.date, beq_refl ⦃e = date_eq⦄ now.date))
      | inr e ↦ e
    ]

    -- A completed catch-up run is recorded for the day on which it started, not for the day that
    -- it made up for. So while the scheduler is enabled, the prompt of a plan of that day lists
    -- the same dates with the run as without it; and a plan of that day does not run today's report.
    pub catch_up_run_unsatisfied :
        cfg.enabled ≡ true
        → ((d : Date)
            → contains ⦃e = date_eq⦄ (catch_ups c (plan_of (rows ++ row ∷ []))) d
              ≡ contains ⦃e = date_eq⦄ (catch_ups c (plan_of rows)) d)
          × (runs_today c (plan_of (rows ++ row ∷ [])) now.date ≡ false)
    catch_up_run_unsatisfied on = (
      λ d. eq_of_iff _ _ (
        λ m.
            let ((k, k1, kw, e), a, b, s, f) =
              (plan_next_actions-catch_ups c now cfg (state_of (rows ++ row ∷ [])) d on).0 m in
            (plan_next_actions-catch_ups c now cfg (state_of rows) d on).1 (
              (k, k1, kw, e),
              a,
              rw (← satisfaction_past d (past d k k1 e)) b,
              s,
              rw (← final_passes_with d) f,
            ),
        λ m.
            let ((k, k1, kw, e), a, b, s, f) =
              (plan_next_actions-catch_ups c now cfg (state_of rows) d on).0 m in
            (plan_next_actions-catch_ups c now cfg (state_of (rows ++ row ∷ [])) d on).1 (
              (k, k1, kw, e),
              a,
              rw (satisfaction_past d (past d k k1 e)) b,
              s,
              rw (final_passes_with d) f,
            ),
      ),
      today_satisfied,
    )
