-- ===== src/Prelude/Results.antt =====
-- `Result`, with the value last as in the other libraries: `Result E A`.
use mathlib.Core.Path.{◌≡◌, refl}

pub data Result (E A : Type 0) : Type 0 where
  ok : A → Result E A
  err : E → Result E A

module _ {E X Y : Type 0} where
  infixl 5 ◌>>=◌
  abbrev pub ◌>>=◌ : Result E X → (X → Result E Y) → Result E Y
  ok x >>= next = next x
  err refused >>= next = err refused

  -- What a successful chain went through.
  pub >>=-eq-ok :
      (first : Result E X) (next : X → Result E Y) {y : Y}
      → (first >>= next) ≡ ok y
      → (x : X) × (first ≡ ok x) × (next x ≡ ok y)
  >>=-eq-ok (err refused) next ran = cc
  >>=-eq-ok (ok x) next ran = (x, refl, ran)

pub ok-injective : {E A : Type 0} {a b : A} → ◌≡◌ {A = Result E A} (ok a) (ok b) → a ≡ b
ok-injective h = cc
