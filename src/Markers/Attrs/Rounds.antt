-- ===== src/Markers/Attrs/Rounds.antt =====
-- The rounds of `iter_attrs` are enough: a round leaves a shorter text.
use dayseam.Prelude.{
  ℕ, zero, suc, ◌≤◌, ◌≡◌, refl, ap, arith, Bool, List, [], ◌∷◌, ◌++◌, nat_eqb, length, Bool-cases,
  Option-cases, inl, inr, any, ◌||◌, ◌⊎◌,
}
use dayseam.Prelude.Results.{Result, ok, err}
use dayseam.Text.{Text, trim, trim_start, trim_start_matches, is_whitespace, split_once, is_empty}
use dayseam.Markers.Syntax.{Detail}
use dayseam.Markers.Lines.{length-split_once}
use dayseam.Markers.Attrs.{closing, quoted, keyed, one_attr, attrs_loop}

length-trim_start_matches : (p : ℕ → Bool) (s : Text) → length (trim_start_matches p s) ≤ length s
unfolding trim_start_matches
length-trim_start_matches p [] = omega arith
length-trim_start_matches p (c ∷ s) = ground (arith, length-trim_start_matches p s)

length-trim_start : (s : Text) → length (trim_start s) ≤ length s
unfolding trim_start
length-trim_start s = length-trim_start_matches is_whitespace s

length-closing :
    (key s : Text) (attr : Text × Text) (later : Text)
    → closing key (split_once b'"' s) ≡ ok (attr, later)
    → length later ≤ length s
unfolding closing
length-closing key s attr later taken = elim (Option-cases (split_once b'"' s)) [
  | inl missing ↦ ground arith
  | inr ((value, rest), found) ↦
      let same : trim_start rest ≡ later = ground arith in
      omega
        (arith, ap length same, length-trim_start rest, length-split_once b'"' s value rest found)
]

length-quoted :
    (key s : Text) (attr : Text × Text) (later : Text)
    → quoted key s ≡ ok (attr, later)
    → length later ≤ length s
unfolding quoted
length-quoted key [] attr later taken = cc
length-quoted key (c ∷ s) attr later taken = elim (Bool-cases (nat_eqb c b'"')) [
  | inl opens ↦ omega (arith, length-closing key s attr later (rw opens at taken))
  | inr other ↦ ground arith
]

length-one_attr :
    (s : Text) (attr : Text × Text) (later : Text)
    → one_attr s ≡ ok (attr, later)
    → suc (length later) ≤ length s
unfolding one_attr keyed
length-one_attr s attr later taken = elim (Option-cases (split_once b'=' s)) [
  | inl missing ↦ ground arith
  | inr ((before, after), found) ↦
      elim (Bool-cases (is_empty (trim before) || any is_whitespace (trim before))) [
        | inl bad ↦ ground arith
        | inr good ↦ omega (
          arith,
          length-quoted (trim before) (trim_start after) attr later (rw (found, good) at taken),
          length-trim_start after,
          length-split_once b'=' s before after found,
        )
      ]
]

-- The number of rounds does not matter, as long as there is one for each character of the text.
pub attrs_loop-enough :
    (n m : ℕ) (s : Text) (out : List (Text × Text))
    → length s ≤ n
    → length s ≤ m
    → attrs_loop n s out ≡ attrs_loop m s out
unfolding attrs_loop
attrs_loop-enough zero zero s out hn hm = refl
attrs_loop-enough zero (suc m) [] out hn hm = refl
attrs_loop-enough (suc n) zero [] out hn hm = refl
attrs_loop-enough (suc n) (suc m) [] out hn hm = refl
attrs_loop-enough zero (suc m) (c ∷ s) out hn hm = absurd (omega arith)
attrs_loop-enough (suc n) zero (c ∷ s) out hn hm = absurd (omega arith)
attrs_loop-enough (suc n) (suc m) (c ∷ s) out hn hm = elim (taken (one_attr (c ∷ s))) [
  | inl (e, failed) ↦ rw failed refl
  | inr ((attr, later), found) ↦
      let shorter = length-one_attr (c ∷ s) attr later found in
      rw found (
        attrs_loop-enough n m later (out ++ attr ∷ []) (omega (arith, shorter))
          (omega (arith, shorter)))
]
  where
    taken :
        {A : Type 0} (r : Result Detail A) → ((e : Detail) × (r ≡ err e)) ⊎ ((a : A) × (r ≡ ok a))
    taken (ok a) = inr (a, refl)
    taken (err e) = inl (e, refl)
