-- ===== src/Prelude/Tests.antt =====
-- Boolean tests on the native numbers, the conditional, and equality as an interface.
use Prim.Native.Nat.{ℕ, ◌≤◌, ◌<◌, compare, Ordering}
use mathlib.Core.Path.{◌≡◌, refl, sym}
use mathlib.Core.Logic.{◌↔◌, ◌⊎◌, inl, inr}
use mathlib.Core.Bool.{Bool, true, false, ◌&&◌}
use mathlib.Core.List.{List, [], ◌∷◌}
use mathlib.Core.Option.{Option, none, some}
use native.Mathlib.Omega.{arith}

abbrev pub ltb : ℕ → ℕ → Bool
ltb a b = elim (compare a b) [ Ordering.lt ↦ true | _ ↦ false ]

abbrev pub leb : ℕ → ℕ → Bool
leb a b = elim (compare a b) [ Ordering.gt ↦ false | _ ↦ true ]

abbrev pub nat_eqb : ℕ → ℕ → Bool
nat_eqb a b = elim (compare a b) [ Ordering.eq ↦ true | _ ↦ false ]

infix 1 if◌then◌else◌
abbrev pub if◌then◌else◌ {ℓ} : {A : Type ℓ} → Bool → A → A → A
if true then x else y = x
if false then x else y = y

pub nat_eqb_iff : (a b : ℕ) → (nat_eqb a b ≡ true) ↔ (a ≡ b)
nat_eqb_iff a b = ground arith

pub ltb→lt : (a b : ℕ) → ltb a b ≡ true → a < b
ltb→lt a b h = ground arith

pub leb→le : (a b : ℕ) → leb a b ≡ true → a ≤ b
leb→le a b h = ground arith

pub Bool-cases : (b : Bool) → (b ≡ true) ⊎ (b ≡ false)
Bool-cases true = inl refl
Bool-cases false = inr refl

pub Option-cases {ℓ} : {A : Type ℓ} (o : Option A) → (o ≡ none) ⊎ ((a : A) × (o ≡ some a))
Option-cases none = inl refl
Option-cases (some a) = inr (a, refl)

-- `PartialEq`: a test that decides equality.
pub record Eq {κ} (K : Type κ) : Type κ where
  pub beq : K → K → Bool
  pub beq_iff : (x y : K) → (beq x y ≡ true) ↔ (x ≡ y)

instance abbrev pub nat_eq : Eq ℕ
nat_eq = record { beq_iff = nat_eqb_iff; beq = nat_eqb }

module _ {ℓ} {A : Type ℓ} ⦃e : Eq A⦄ where
  infix 50 ◌==◌
  abbrev pub ◌==◌ : A → A → Bool
  ◌==◌ = e.beq

  abbrev pub option_eqb : Option A → Option A → Bool
  option_eqb none none = true
  option_eqb (some a) (some b) = a == b
  option_eqb none (some b) = false
  option_eqb (some a) none = false

  pub option_eqb_iff : (a b : Option A) → (option_eqb a b ≡ true) ↔ (a ≡ b)
  option_eqb_iff none none = ground arith
  option_eqb_iff (some a) (some b) = ground (arith, e.beq_iff a b)
  option_eqb_iff none (some b) = ground arith
  option_eqb_iff (some a) none = ground arith

  abbrev pub list_eqb : List A → List A → Bool
  list_eqb [] [] = true
  list_eqb (a ∷ xs) (b ∷ ys) = a == b && list_eqb xs ys
  list_eqb [] (b ∷ ys) = false
  list_eqb (a ∷ xs) [] = false

  pub list_eqb_iff : (a b : List A) → (list_eqb a b ≡ true) ↔ (a ≡ b)
  list_eqb_iff [] [] = ground arith
  list_eqb_iff (a ∷ xs) (b ∷ ys) = ground (arith, e.beq_iff a b, list_eqb_iff xs ys)
  list_eqb_iff [] (b ∷ ys) = ground arith
  list_eqb_iff (a ∷ xs) [] = ground arith

  instance abbrev pub option_eq : Eq (Option A)
  option_eq = record { beq = option_eqb; beq_iff = option_eqb_iff }

  instance abbrev pub list_eq : Eq (List A)
  list_eq = record { beq = list_eqb; beq_iff = list_eqb_iff }

  pub beq_refl : (a : A) → (a == a) ≡ true
  beq_refl a = (e.beq_iff a a).1 refl

  pub beq_sym : (a b : A) → (a == b) ≡ true → (b == a) ≡ true
  beq_sym a b h = (e.beq_iff b a).1 (sym ((e.beq_iff a b).0 h))
