-- ===== src/Schedule/Satisfaction.antt =====
-- The state that the planner reads off the recorded runs.
use dayseam.Prelude.{
  ◌≡◌, inl, inr, refl, ap, ◌∙◌, arith, Bool, true, false, ◌&&◌, ◌||◌, List, [], ◌∷◌, Option, none,
  some, any, if◌then◌else◌, Bool-cases,
}
use dayseam.Prelude.Maps.{lookup, lookup-insert}
use dayseam.Runs.{is_completed}
use dayseam.Schedule.{
  SatisfactionKind, SchedulerRunRow, target, upgraded, satisfy, satisfied_by, from_sync_runs,
  satisfaction,
}
use dayseam.Schedule.Dates.{Calendar}

abbrev is_final_kind : SatisfactionKind → Bool
is_final_kind SatisfactionKind.in_day = false
is_final_kind SatisfactionKind.final_pass = true

-- The satisfaction of a date: what is known of it, a final pass among the runs, any run.
abbrev pub strongest : Option SatisfactionKind → Bool → Bool → Option SatisfactionKind
strongest known true anything = some SatisfactionKind.final_pass
strongest (some kind) false anything = some kind
strongest none false true = some SatisfactionKind.in_day
strongest none false false = none

module _ (c : Calendar) (tz : c.Offset) where
  open c use {Date, date_eq, date_naive}

  abbrev target_of : SchedulerRunRow c → Date × SatisfactionKind
  target_of row = target c (date_naive tz row.started_at) row.trigger

  -- A completed run for this date; one that was a final pass over it.
  abbrev pub runs_for : Date → SchedulerRunRow c → Bool
  runs_for d row = is_completed row.status && date_eq.beq (target_of row).0 d

  abbrev pub final_pass_for : Date → SchedulerRunRow c → Bool
  final_pass_for d row = runs_for d row && is_final_kind (target_of row).1

  strongest_step :
      (same : Bool) (kind : SatisfactionKind) (at_target at_d : Option SatisfactionKind)
      (f r : Bool)
      → (same ≡ true → at_target ≡ at_d)
      → strongest (if same then some (upgraded c kind at_target) else at_d) f r
        ≡ strongest at_d (same && is_final_kind kind || f) (same || r)
  unfolding upgraded
  strongest_step true kind at_target at_d f r h = ground (arith, h refl)
  strongest_step false kind at_target at_d f r h = refl

  satisfied_by-strongest :
      (rows : List (SchedulerRunRow c)) (m : List (Date × SatisfactionKind)) (d : Date)
      → lookup ⦃e = date_eq⦄ d (satisfied_by c tz m rows)
        ≡ strongest (lookup ⦃e = date_eq⦄ d m) (any (final_pass_for d) rows) (any (runs_for d) rows)
  unfolding satisfied_by
  satisfied_by-strongest [] m d = ground arith
  satisfied_by-strongest (row ∷ rows) m d = elim (Bool-cases (is_completed row.status)) [
    | inl done ↦
        let (t, kind) = target_of row in
        rw done (
          satisfied_by-strongest rows (satisfy c m (target_of row)) d
          ∙ rw (lookup-insert ⦃e = date_eq⦄ t d (upgraded c kind (lookup ⦃e = date_eq⦄ t m)) m) (
              strongest_step (date_eq.beq t d) kind (lookup ⦃e = date_eq⦄ t m)
                (lookup ⦃e = date_eq⦄ d m) (any (final_pass_for d) rows) (any (runs_for d) rows)
                (λ same. ap (λ x. lookup ⦃e = date_eq⦄ x m) ((date_eq.beq_iff t d).0 same))))
    | inr not_done ↦ rw not_done (satisfied_by-strongest rows m d)
  ]

  -- What the recorded runs say of a date does not depend on their order: a final pass, if one of
  -- the completed runs was a final pass over it; satisfied in its day, if none was and some other
  -- completed run is for it; nothing otherwise. Nothing is skipped, and no run is in flight.
  pub from_sync_runs_lem :
      (rows : List (SchedulerRunRow c)) (d : Date)
      → let state = from_sync_runs c rows tz in
        (satisfaction c state d
          ≡ strongest none (any (final_pass_for d) rows) (any (runs_for d) rows))
        × (state.skipped_this_session ≡ [])
        × (state.user_run_in_flight ≡ false)
  unfolding from_sync_runs satisfaction lookup
  from_sync_runs_lem rows d = (satisfied_by-strongest rows [] d, refl, refl)
