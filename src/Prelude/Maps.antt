-- ===== src/Prelude/Maps.antt =====
-- `BTreeMap` and `HashMap` where only membership and lookup matter: association lists.
use mathlib.Core.Path.{◌≡◌, refl}
use mathlib.Core.Bool.{Bool}
use mathlib.Core.List.{List, [], ◌∷◌}
use mathlib.Core.Option.{Option, none, some}
use native.Mathlib.Omega.{arith}
use dayseam.Prelude.Tests.{if◌then◌else◌, Eq, ◌==◌}

module _ {ℓ κ} {K : Type ℓ} {V : Type κ} ⦃e : Eq K⦄ where
  -- The first value of a key.
  unfoldable pub lookup : K → List (K × V) → Option V
  lookup key [] = none
  lookup key ((other, held) ∷ entries) =
      let further = lookup key entries in if other == key then some held else further

  -- A value takes the place of the key's first one, or goes to the end.
  unfoldable pub insert : K → V → List (K × V) → List (K × V)
  insert key value [] = (key, value) ∷ []
  insert key value ((other, held) ∷ entries) =
      let further = insert key value entries in
      if other == key then (key, value) ∷ entries else (other, held) ∷ further

  pub lookup-insert :
      (key sought : K) (value : V) (entries : List (K × V))
      → lookup sought (insert key value entries)
        ≡ (if key == sought then some value else lookup sought entries)
  unfolding lookup insert
  lookup-insert key sought value [] = refl
  lookup-insert key sought value ((other, held) ∷ entries) = ground (
    arith,
    e.beq_iff key sought,
    e.beq_iff other key,
    e.beq_iff other sought,
    lookup-insert key sought value entries,
  )

  -- The map without a key.
  unfoldable pub remove : K → List (K × V) → List (K × V)
  remove key [] = []
  remove key ((other, held) ∷ entries) =
      let further = remove key entries in if other == key then further else (other, held) ∷ further

  pub lookup-remove :
      (key sought : K) (entries : List (K × V))
      → lookup sought (remove key entries) ≡ (if key == sought then none else lookup sought entries)
  unfolding lookup remove
  lookup-remove key sought [] = ground arith
  lookup-remove key sought ((other, held) ∷ entries) = ground (
    arith,
    e.beq_iff key sought,
    e.beq_iff other key,
    e.beq_iff other sought,
    lookup-remove key sought entries,
  )

  -- `BTreeMap::insert`, where the order of the keys matters: the entries are in that order.
  unfoldable pub place : (K → K → Bool) → K → V → List (K × V) → List (K × V)
  place before key value [] = (key, value) ∷ []
  place before key value ((other, held) ∷ entries) =
      let further = place before key value entries in
      if other == key
      then (key, value) ∷ entries
      else if before key other
      then (key, value) ∷ (other, held) ∷ entries
      else (other, held) ∷ further

  pub lookup-place :
      (before : K → K → Bool) (key sought : K) (value : V) (entries : List (K × V))
      → lookup sought (place before key value entries)
        ≡ (if key == sought then some value else lookup sought entries)
  unfolding lookup place
  lookup-place before key sought value [] = refl
  lookup-place before key sought value ((other, held) ∷ entries) = ground (
    arith,
    e.beq_iff key sought,
    e.beq_iff other key,
    e.beq_iff other sought,
    lookup-place before key sought value entries,
  )
