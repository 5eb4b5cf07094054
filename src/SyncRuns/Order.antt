-- ===== src/SyncRuns/Order.antt =====
-- `ORDER BY started_at` and `WHERE` keep the rows: their keys, their number and what holds of each.
use dayseam.Prelude.{
  ℕ, suc, ◌≡◌, refl, ◌∙◌, ap, arith, Bool, true, false, List, [], ◌∷◌, Option, none, some, nat_eqb,
  leb, filter, length, any, Bool-cases, inl, inr, Every, nat_eqb_iff,
}
use mathlib.Core.Path.{subst}
use dayseam.Runs.{SyncRun}
use dayseam.SyncRuns.{has_id, get, by_start, place_by_start}
use dayseam.SyncRuns.Table.{IsKeyed}

-- What a test says of a row that a look-up may have found.
abbrev pub holds : {E : Type 0} → (SyncRun E → Bool) → Option (SyncRun E) → Bool
holds p none = false
holds p (some run) = p run

module _ {E : Type 0} where
  any-place :
      (id : ℕ) (run : SyncRun E) (rows : List (SyncRun E))
      → any (has_id id) (place_by_start run rows) ≡ any (has_id id) (run ∷ rows)
  unfolding place_by_start
  any-place id run [] = refl
  any-place id run (first ∷ rows) = ground (arith, any-place id run rows)

  pub any-by_start :
      (id : ℕ) (rows : List (SyncRun E)) → any (has_id id) (by_start rows) ≡ any (has_id id) rows
  unfolding by_start
  any-by_start id [] = refl
  any-by_start id (run ∷ rows) =
      ground (arith, any-place id run (by_start rows), any-by_start id rows)

  length-place :
      (run : SyncRun E) (rows : List (SyncRun E))
      → length (place_by_start run rows) ≡ suc (length rows)
  unfolding place_by_start
  length-place run [] = refl
  length-place run (first ∷ rows) = ground (arith, length-place run rows)

  pub length-by_start : (rows : List (SyncRun E)) → length (by_start rows) ≡ length rows
  unfolding by_start
  length-by_start [] = refl
  length-by_start (run ∷ rows) = length-place run (by_start rows) ∙ ap suc (length-by_start rows)

  IsKeyed-place :
      (run : SyncRun E) (rows : List (SyncRun E))
      → IsKeyed (run ∷ rows)
      → IsKeyed (place_by_start run rows)
  unfolding place_by_start IsKeyed
  IsKeyed-place run [] keyed = keyed
  IsKeyed-place run (first ∷ rows) (fresh, (apart, keyed)) =
      elim (Bool-cases (leb run.started_at first.started_at)) [
        | inl before ↦ rw before (fresh, (apart, keyed))
        | inr behind ↦ rw behind (
          ground (arith, any-place first.id run rows),
          IsKeyed-place run rows (ground arith, keyed),
        )
      ]

  pub IsKeyed-by_start : (rows : List (SyncRun E)) → IsKeyed rows → IsKeyed (by_start rows)
  unfolding by_start IsKeyed
  IsKeyed-by_start [] keyed = tt
  IsKeyed-by_start (run ∷ rows) (fresh, keyed) =
      IsKeyed-place run (by_start rows)
        (any-by_start run.id rows ∙ fresh, IsKeyed-by_start rows keyed)

  module _ (P : SyncRun E → Type 0) where
    Every-place :
        (run : SyncRun E) (rows : List (SyncRun E))
        → P run
        → Every P rows
        → Every P (place_by_start run rows)
    unfolding place_by_start
    Every-place run [] here all = (here, tt)
    Every-place run (first ∷ rows) here (head, all) =
        elim (Bool-cases (leb run.started_at first.started_at)) [
          | inl before ↦ rw before (here, (head, all))
          | inr behind ↦ rw behind (head, Every-place run rows here all)
        ]

    pub Every-by_start : (rows : List (SyncRun E)) → Every P rows → Every P (by_start rows)
    unfolding by_start
    Every-by_start [] all = tt
    Every-by_start (run ∷ rows) (here, all) =
        Every-place run (by_start rows) here (Every-by_start rows all)

    pub Every-filter :
        (p : SyncRun E → Bool) (rows : List (SyncRun E))
        → Every P rows
        → Every (λ run. P run × (p run ≡ true)) (filter p rows)
    Every-filter p [] all = tt
    Every-filter p (run ∷ rows) (here, all) = elim (Bool-cases (p run)) [
      | inl goes ↦ rw goes ((here, goes), Every-filter p rows all)
      | inr stays ↦ rw stays (Every-filter p rows all)
    ]

  any-filter_fresh :
      (id : ℕ) (p : SyncRun E → Bool) (rows : List (SyncRun E))
      → any (has_id id) rows ≡ false
      → any (has_id id) (filter p rows) ≡ false
  any-filter_fresh id p [] fresh = refl
  any-filter_fresh id p (run ∷ rows) fresh = ground (arith, any-filter_fresh id p rows)

  pub IsKeyed-filter :
      (p : SyncRun E → Bool) (rows : List (SyncRun E)) → IsKeyed rows → IsKeyed (filter p rows)
  unfolding IsKeyed
  IsKeyed-filter p [] keyed = tt
  IsKeyed-filter p (run ∷ rows) (fresh, keyed) = elim (Bool-cases (p run)) [
    | inl goes ↦ rw goes (any-filter_fresh run.id p rows fresh, IsKeyed-filter p rows keyed)
    | inr stays ↦ rw stays (IsKeyed-filter p rows keyed)
  ]

  pub any-filter :
      (id : ℕ) (p : SyncRun E → Bool) (rows : List (SyncRun E))
      → IsKeyed rows
      → any (has_id id) (filter p rows) ≡ holds p (get id rows)
  unfolding IsKeyed
  any-filter id p [] keyed = refl
  any-filter id p (run ∷ rows) (fresh, keyed) = elim (Bool-cases (nat_eqb run.id id)) [
    | inl same ↦
        let absent_here = any-filter_fresh run.id p rows fresh in
        let absent_at =
          subst (λ x. any (has_id x) (filter p rows) ≡ false) ((nat_eqb_iff run.id id).0 same)
            absent_here in
        ground (arith, same, absent_at)
    | inr other ↦ ground (arith, other, any-filter id p rows keyed)
  ]

  found_under :
      (run : SyncRun E) (rows runs : List (SyncRun E))
      → any (has_id run.id) runs ≡ false
      → Every (λ r. get r.id rows ≡ some r) runs
      → Every (λ r. get r.id (run ∷ rows) ≡ some r) runs
  found_under run rows [] fresh all = tt
  found_under run rows (r ∷ runs) fresh (here, all) =
      (ground arith, found_under run rows runs (ground arith) all)

  -- Each row is found by its key.
  pub found_by_key :
      (rows : List (SyncRun E)) → IsKeyed rows → Every (λ run. get run.id rows ≡ some run) rows
  unfolding IsKeyed
  found_by_key [] keyed = tt
  found_by_key (run ∷ rows) (fresh, keyed) =
      (ground arith, found_under run rows rows fresh (found_by_key rows keyed))
