-- ===== src/Prelude/Members.antt =====
-- A property of every member of a list, as nested pairs that the tactics read.
use mathlib.Core.List.{List, [], ◌∷◌, ◌++◌}

abbrev pub Every {ℓ κ} : {A : Type ℓ} → (A → Type κ) → List A → Type κ
Every P [] = Unit
Every P (x ∷ xs) = P x × Every P xs

module _ {ℓ κ} {A : Type ℓ} (P : A → Type κ) where
  pub Every-append : (xs ys : List A) → Every P xs → Every P ys → Every P (xs ++ ys)
  Every-append [] ys hx hy = hy
  Every-append (x ∷ xs) ys hx hy = (hx.0, Every-append xs ys hx.1 hy)
