-- ===== src/Generate/Counts.antt =====
-- The counts of events that a fan-out's split puts into the row.
use dayseam.Prelude.{
  ℕ, ◌+◌, ◌^◌, ◌<◌, ◌≡◌, refl, arith, List, [], ◌∷◌, ◌++◌, length, length-append, Every,
}
use dayseam.Prelude.Results.{Result, ok, err}
use dayseam.Runs.{PerSourceState}
use dayseam.Generate.{
  PerSourceResult, Split, SyncResult, split_from, split_one, split_fan_out, events_of, row_state,
}

abbrev pub total_fetched : {E : Type 0} → List (PerSourceState E) → ℕ
total_fetched [] = 0
total_fetched (state ∷ states) = state.fetched_count + total_fetched states

total_fetched-append :
    {E : Type 0} (xs ys : List (PerSourceState E))
    → total_fetched (xs ++ ys) ≡ total_fetched xs + total_fetched ys
total_fetched-append [] ys = omega arith
total_fetched-append (x ∷ xs) ys = ground (arith, total_fetched-append xs ys)

module _ {V A E : Type 0} where
  abbrev pub FitsCount : PerSourceResult V A E → Type 0
  FitsCount res = length (events_of res.outcome) < 2 ^ 32

  row-count :
      (res : PerSourceResult V A E) (outcome : Result E (SyncResult V A))
      → length (events_of outcome) < 2 ^ 32
      → (row_state res outcome).fetched_count ≡ length (events_of outcome)
  row-count res (ok sync_result) fits = omega arith
  row-count res (err e) fits = refl

  split_from-count :
      (s : Split V A E) (per_source : List (PerSourceResult V A E))
      → Every FitsCount per_source
      → total_fetched s.per_source_syncrun ≡ length s.events
      → total_fetched (split_from s per_source).per_source_syncrun
        ≡ length (split_from s per_source).events
  split_from-count s [] fits sofar = sofar
  split_from-count s (res ∷ per_source) (fit, fits) sofar =
      let row = row-count res res.outcome fit in
      let rows = total_fetched-append s.per_source_syncrun (row_state res res.outcome ∷ []) in
      let events = length-append s.events (events_of res.outcome) in
      split_from-count (split_one s res) per_source fits (omega arith)

  -- If each source sent fewer than 2 ^ 32 events, the counts that `split_fan_out` writes into the row,
  -- each cut to 32 bits, add up to the number of events that it hands on to the report.
  pub split_fan_out-count :
      (per_source : List (PerSourceResult V A E))
      → Every FitsCount per_source
      → total_fetched (split_fan_out per_source).per_source_syncrun
        ≡ length (split_fan_out per_source).events
  split_fan_out-count per_source fits = split_from-count _ per_source fits refl
