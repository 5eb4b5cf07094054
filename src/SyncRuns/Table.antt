-- ===== src/SyncRuns/Table.antt =====
-- The rows of the table by their key, and how an `UPDATE` changes them.
use dayseam.Prelude.{
  ℕ, ◌≡◌, refl, arith, false, List, [], ◌∷◌, Option, none, some, nat_eqb, nat_eqb_iff, filter,
  length, any, if◌then◌else◌, Bool-cases, inl, inr,
}
use mathlib.Core.Path.{subst}
use mathlib.Core.Option
use dayseam.Runs.{SyncRun, is_running}
use dayseam.SyncRuns.{has_id, get, update, is_open}

-- No two rows have one `id`.
unfoldable pub IsKeyed : {E : Type 0} → List (SyncRun E) → Type 0
IsKeyed [] = Unit
IsKeyed (run ∷ rows) = (any (has_id run.id) rows ≡ false) × IsKeyed rows

-- How many rows an `UPDATE … WHERE id = ? AND status = 'Running'` touches, by what a look-up finds.
abbrev pub open_count : {E : Type 0} → Option (SyncRun E) → ℕ
open_count none = 0
open_count (some run) = if is_running run.status then 1 else 0

module _ {E : Type 0} where
  pub absent :
      (id : ℕ) (rows : List (SyncRun E))
      → any (has_id id) rows ≡ false
      → (get id rows ≡ none) × (length (filter (is_open id) rows) ≡ 0)
  absent id [] missing = (refl, refl)
  absent id (run ∷ rows) missing = ground (arith, absent id rows)

  pub length-open :
      (id : ℕ) (rows : List (SyncRun E))
      → IsKeyed rows
      → length (filter (is_open id) rows) ≡ open_count (get id rows)
  unfolding IsKeyed
  length-open id [] keyed = refl
  length-open id (run ∷ rows) (fresh, keyed) = elim (Bool-cases (nat_eqb run.id id)) [
    | inl same ↦
        let at_id = (nat_eqb_iff run.id id).0 same in
        let (gone, count) = absent id rows (subst (λ x. any (has_id x) rows ≡ false) at_id fresh) in
        ground (arith, same, count)
    | inr other ↦ rw other (length-open id rows keyed)
  ]

  pub update_closed :
      (id : ℕ) (f : SyncRun E → SyncRun E) (rows : List (SyncRun E))
      → length (filter (is_open id) rows) ≡ 0
      → update (is_open id) f rows ≡ rows
  update_closed id f [] none_open = refl
  update_closed id f (run ∷ rows) none_open = ground (arith, update_closed id f rows)

  -- What a look-up finds after an update by `id` that keeps the rows' keys.
  pub get-update :
      (id j : ℕ) (f : SyncRun E → SyncRun E) (keeps : (run : SyncRun E) → (f run).id ≡ run.id)
      (rows : List (SyncRun E))
      → get j (update (is_open id) f rows)
        ≡ Option.map (λ run. if is_open id run then f run else run) (get j rows)
  get-update id j f keeps [] = refl
  get-update id j f keeps (run ∷ rows) = ground (arith, get-update id j f keeps rows, keeps run)

  pub any-update :
      (id j : ℕ) (f : SyncRun E → SyncRun E) (keeps : (run : SyncRun E) → (f run).id ≡ run.id)
      (rows : List (SyncRun E))
      → any (has_id j) (update (is_open id) f rows) ≡ any (has_id j) rows
  any-update id j f keeps [] = refl
  any-update id j f keeps (run ∷ rows) = ground (arith, any-update id j f keeps rows, keeps run)
