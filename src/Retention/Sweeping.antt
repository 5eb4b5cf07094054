-- ===== src/Retention/Sweeping.antt =====
-- What a sweep leaves in the two tables.
use dayseam.Prelude.{
  ℕ, suc, ◌≡◌, refl, arith, Bool, true, false, not, ◌&&◌, List, [], ◌∷◌, ltb, nat_eqb,
  if◌then◌else◌,
}
use dayseam.Prelude.Results.{ok, err}
use dayseam.Retention.{Tables, sweep, sweep_logs, prune_older_than, on_log_entries, on_raw_payloads}

-- How many rows have this instant, and how many have one before the cutoff.
abbrev pub rows_at : ℕ → List ℕ → ℕ
rows_at x [] = 0
rows_at x (t ∷ rows) = if nat_eqb t x then suc (rows_at x rows) else rows_at x rows

abbrev pub rows_before : ℕ → List ℕ → ℕ
rows_before cutoff [] = 0
rows_before cutoff (t ∷ rows) =
    if ltb t cutoff then suc (rows_before cutoff rows) else rows_before cutoff rows

prune_older_than_lem :
    (cutoff x : ℕ) (rows : List ℕ)
    → (rows_at x (prune_older_than cutoff rows).0 ≡ (if ltb x cutoff then 0 else rows_at x rows))
      × ((prune_older_than cutoff rows).1 ≡ rows_before cutoff rows)
unfolding prune_older_than
prune_older_than_lem cutoff x [] = ground arith
prune_older_than_lem cutoff x (t ∷ rows) =
    let (left, gone) = prune_older_than_lem cutoff x rows in ground arith

-- What the database refuses decides the outcome. The rows of a table before the cutoff go exactly if
-- neither its own statement nor one before it is refused, and whatever is refused no row at the cutoff
-- or after it goes. Without a refusal the report counts the rows that are gone.
pub sweep_lem :
    (raw_fails logs_fail : Bool) (cutoff x : ℕ) (t : Tables)
    → (rows_at x (sweep raw_fails logs_fail cutoff t).0.raw_payloads
        ≡ (if ltb x cutoff && not raw_fails then 0 else rows_at x t.raw_payloads))
      × (rows_at x (sweep raw_fails logs_fail cutoff t).0.log_entries
          ≡ (if ltb x cutoff && not raw_fails && not logs_fail then 0 else rows_at x t.log_entries))
      × ((sweep raw_fails logs_fail cutoff t).1 ≡ (
          if raw_fails
          then err on_raw_payloads
          else if logs_fail
          then err on_log_entries
          else ok (record {
            raw_payloads_deleted = rows_before cutoff t.raw_payloads;
            log_entries_deleted = rows_before cutoff t.log_entries;
          })))
unfolding sweep sweep_logs
sweep_lem true logs_fail cutoff x t = (ground arith, ground arith, refl)
sweep_lem false true cutoff x t =
    let (raw, _) = prune_older_than_lem cutoff x t.raw_payloads in
    (ground (arith, raw), ground arith, refl)
sweep_lem false false cutoff x t =
    let (raw, raw_gone) = prune_older_than_lem cutoff x t.raw_payloads in
    let (log, log_gone) = prune_older_than_lem cutoff x t.log_entries in
    (ground (arith, raw), ground (arith, log), rw (raw_gone, log_gone) refl)
