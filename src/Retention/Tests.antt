-- ===== src/Retention/Tests.antt =====
-- The guard and the sweep on a few instants.
use dayseam.Prelude.{◌≡◌, refl, List, [], ◌∷◌, some, false}
use dayseam.Prelude.Results.{ok}
use dayseam.Retention.{claim_sweep_slot, RetentionSchedule, Tables, sweep}
use dayseam.Retention.Spacing.{
  Call, claim, external, sweeps, after, IsSpaced, ended, sweeps-IsSpaced,
}
use dayseam.Retention.Sweeping.{rows_at, sweep_lem}

abbrev schedule : RetentionSchedule
schedule = record { min_interval = 900; last = some 1000; sweeps_performed = 2 }

abbrev calls : List Call
calls = claim 1500 ∷ claim 1900 ∷ external 2000 ∷ claim 2800 ∷ claim 2900 ∷ []

sweeps-IsSpaced_example :
    IsSpaced 900 (some 1000) calls (sweeps schedule calls)
    × (after schedule calls ≡ ended schedule (sweeps schedule calls))
sweeps-IsSpaced_example = sweeps-IsSpaced schedule calls

-- The claims that are due, with the interval passed to the second or not.
granted_calls : sweeps schedule calls ≡ claim 1900 ∷ external 2000 ∷ claim 2900 ∷ []
unfolding sweeps claim_sweep_slot
granted_calls = refl

abbrev tables : Tables
tables = record { raw_payloads = 10 ∷ 25 ∷ []; log_entries = 30 ∷ 5 ∷ 7 ∷ [] }

sweep_lem_example :
    (rows_at 5 (sweep false false 20 tables).0.raw_payloads ≡ 0)
    × (rows_at 5 (sweep false false 20 tables).0.log_entries ≡ 0)
    × ((sweep false false 20 tables).1
        ≡ ok (record { raw_payloads_deleted = 1; log_entries_deleted = 2 }))
sweep_lem_example = sweep_lem false false 20 5 tables
