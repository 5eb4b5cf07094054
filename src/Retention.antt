-- ===== src/Retention.antt =====
-- crates/dayseam-orchestrator/src/retention.rs: the sweep of old rows and the guard that spaces
-- the sweeps out. An instant is a number, and a span of time too: `now - prev` is a signed span in
-- the source, so an instant before `prev` is less than any interval away. A table is the list of
-- its rows' instants. A failure of the database is a result that the caller chooses.
mod Spacing
mod Sweeping
mod Tests
use dayseam.Prelude.{
  ℕ, suc, ◌+◌, ◌-◌, ◌*◌, Bool, true, false, not, List, [], ◌∷◌, Option, none, some, ltb, filter,
  length, if◌then◌else◌,
}
use dayseam.Prelude.Results.{Result, ok, err, ◌>>=◌}

abbrev pub default_retention_days : ℕ
default_retention_days = 30

-- `POST_RUN_SWEEP_MIN_INTERVAL`, in seconds.
abbrev pub post_run_sweep_min_interval : ℕ
post_run_sweep_min_interval = 15 * 60

pub record RetentionSchedule : Type 0 where
  pub min_interval : ℕ
  pub last : Option ℕ
  pub sweeps_performed : ℕ

pub with_interval : ℕ → RetentionSchedule
with_interval min_interval = record {
  min_interval = min_interval;
  last = none;
  sweeps_performed = 0;
}

-- Whether a claim at `now` comes too early after the last sweep.
is_early : ℕ → ℕ → Option ℕ → Bool
is_early min_interval now none = false
is_early min_interval now (some prev) = ltb now (prev + min_interval)

pub claim_sweep_slot : RetentionSchedule → ℕ → RetentionSchedule × Bool
unfolding is_early
claim_sweep_slot s now =
    if is_early s.min_interval now s.last
    then (s, false)
    else (record s { last = some now; sweeps_performed = s.sweeps_performed + 1 }, true)

abbrev pub note_external_sweep : RetentionSchedule → ℕ → RetentionSchedule
note_external_sweep s now = record s { last = some now }

pub record SweepReport : Type 0 where
  pub raw_payloads_deleted : ℕ
  pub log_entries_deleted : ℕ

pub total_deleted : SweepReport → ℕ
total_deleted r = r.raw_payloads_deleted + r.log_entries_deleted

pub record Tables : Type 0 where
  pub raw_payloads : List ℕ
  pub log_entries : List ℕ

pub data SweepError : Type 0 where
  on_raw_payloads on_log_entries on_settings : SweepError

-- `DELETE … WHERE instant < cutoff`: the rows that stay, and the count of the others.
abbrev older : ℕ → ℕ → Bool
older cutoff t = ltb t cutoff

pub prune_older_than : ℕ → List ℕ → List ℕ × ℕ
prune_older_than cutoff rows =
    (filter (λ t. not (older cutoff t)) rows, length (filter (older cutoff) rows))

-- The flags say which statement the database refuses.
sweep_logs : Bool → ℕ → Tables → ℕ → Tables × Result SweepError SweepReport
sweep_logs true cutoff t raw = (t, err on_log_entries)
sweep_logs false cutoff t raw =
    let (logs, log) = prune_older_than cutoff t.log_entries in
    (
      record t { log_entries = logs },
      ok (record { raw_payloads_deleted = raw; log_entries_deleted = log }),
    )

pub sweep : Bool → Bool → ℕ → Tables → Tables × Result SweepError SweepReport
sweep true logs_fail cutoff t = (t, err on_raw_payloads)
sweep false logs_fail cutoff t =
    let (payloads, raw) = prune_older_than cutoff t.raw_payloads in
    sweep_logs logs_fail cutoff (record t { raw_payloads = payloads }) raw

-- `now` and a day in one unit; the days that the settings hold, if they hold any. The source's
-- subtraction does not stop at 0: `now` is taken to lie that far after the origin of time.
pub resolve_cutoff : Result SweepError (Option ℕ) → ℕ → ℕ → Result SweepError ℕ
resolve_cutoff (err e) day now = err on_settings
resolve_cutoff (ok none) day now = ok (now - default_retention_days * day)
resolve_cutoff (ok (some days)) day now = ok (now - days * day)
