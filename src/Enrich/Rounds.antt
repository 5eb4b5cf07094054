-- ===== src/Enrich/Rounds.antt =====
-- The loops of the scans have rounds enough.
use dayseam.Prelude.{
  ℕ, zero, suc, ◌≤◌, ◌≡◌, refl, ap, arith, Bool, true, false, not, ◌||◌, [], ◌∷◌, Option, none,
  some, length, if◌then◌else◌, Bool-cases, inl, inr, nat_eqb,
}
use dayseam.Text.{codes, strip_prefix, Text, text_eq}
use dayseam.Activity.{entity_kind_eq}
use dayseam.Enrich.{
  run_of, is_ascii_upper, is_ascii_digit, is_ascii_alnum, with_digits, with_prefix, ticket_round,
  ticket_rounds, put,
}
use dayseam.Enrich.Links.{pr_rounds, pr_round, numbered_pr, with_repo, rfind_slash}

length-run_of : (p : ℕ → Bool) (s : Text) → length (run_of p s).1 ≤ length s
length-run_of p [] = omega arith
length-run_of p (c ∷ s) = ground (arith, length-run_of p s)

length-with_digits :
    (prefix rest : Text) (split : Text × Text)
    → length split.1 ≤ length rest
    → length (with_digits prefix rest split).1.1 ≤ length rest
length-with_digits prefix rest ([], after) low = omega arith
length-with_digits prefix rest (d ∷ digits, after) low = ground (arith, low)

length-with_prefix : (split : Text × Text) → length (with_prefix split).1.1 ≤ length split.1
length-with_prefix (prefix, []) = omega arith
length-with_prefix (prefix, c ∷ rest) = ground (
  arith,
  length-with_digits prefix rest (run_of is_ascii_digit rest) (length-run_of is_ascii_digit rest),
)

length-choice :
    (passes alnum : Bool) (s : Text) (split : Text × Text)
    → (passes ≡ false → length split.1 ≤ length s)
    → length (if passes then (none, (alnum, s)) else with_prefix split).1.1 ≤ length s
length-choice true alnum s split low = omega arith
length-choice false alnum s split low =
    let start = low refl in let rest = length-with_prefix split in omega arith

length-run_of_cons :
    (p : ℕ → Bool) (c : ℕ) (s : Text) → p c ≡ true → length (run_of p (c ∷ s)).1 ≤ length s
length-run_of_cons p c s holds = rw holds (length-run_of p s)

upper_here : (upper after_alnum : Bool) → (not upper || after_alnum) ≡ false → upper ≡ true
upper_here true after_alnum starts = refl
upper_here false after_alnum starts = ground (arith, starts)

-- A round takes a character at least.
length-ticket_round :
    (after_alnum : Bool) (c : ℕ) (s : Text) → length (ticket_round after_alnum c s).1.1 ≤ length s
length-ticket_round after_alnum c s =
    length-choice (not (is_ascii_upper c) || after_alnum) (is_ascii_alnum c) s
      (run_of is_ascii_upper (c ∷ s))
      (λ starts.
        length-run_of_cons is_ascii_upper c s (upper_here (is_ascii_upper c) after_alnum starts))

-- As many rounds as there are characters are enough: more change nothing.
ticket_rounds-enough :
    (n m : ℕ) (after_alnum : Bool) (s : Text)
    → length s ≤ n
    → length s ≤ m
    → ticket_rounds n after_alnum s ≡ ticket_rounds m after_alnum s
unfolding ticket_rounds
ticket_rounds-enough zero zero after_alnum s low enough = refl
ticket_rounds-enough zero (suc m) after_alnum [] low enough = refl
ticket_rounds-enough zero (suc m) after_alnum (c ∷ s) low enough = absurd (omega arith)
ticket_rounds-enough (suc n) zero after_alnum [] low enough = refl
ticket_rounds-enough (suc n) zero after_alnum (c ∷ s) low enough = absurd (omega arith)
ticket_rounds-enough (suc n) (suc m) after_alnum [] low enough = refl
ticket_rounds-enough (suc n) (suc m) after_alnum (c ∷ s) low enough =
    let round = ticket_round after_alnum c s in
    let shorter = length-ticket_round after_alnum c s in
    ap (put round.0) (ticket_rounds-enough n m round.1.0 round.1.1 (omega arith) (omega arith))

abbrev rest_of : Text → Option Text → Text
rest_of default none = default
rest_of default (some after) = after

length-strip_prefix :
    (n : ℕ) (prefix s default : Text)
    → length default ≤ n
    → length s ≤ n
    → length (rest_of default (strip_prefix prefix s)) ≤ n
unfolding strip_prefix
length-strip_prefix n [] s default low enough = enough
length-strip_prefix n (c ∷ prefix) [] default low enough = low
length-strip_prefix n (c ∷ prefix) (d ∷ s) default low enough = elim (Bool-cases (nat_eqb c d)) [
  | inl same ↦ rw same (length-strip_prefix n prefix s default low (omega arith))
  | inr apart ↦ rw apart low
]

length-numbered_pr :
    (n : ℕ) (before after : Text) (repo : Option Text) (number : Text × Text)
    → length after ≤ n
    → length number.1 ≤ length after
    → length (numbered_pr before after repo number).1.1 ≤ n
length-numbered_pr n before after none number low shorter = low
length-numbered_pr n before after (some repo) ([], rest) low shorter = low
length-numbered_pr n before after (some repo) (d ∷ digits, rest) low shorter = omega arith

length-pr_round :
    (before : Text) (c : ℕ) (s : Text) (after : Option Text)
    → length (rest_of s after) ≤ length s
    → length (pr_round before c s after).1.1 ≤ length s
length-pr_round before c s none low = low
length-pr_round before c s (some after) low =
    length-numbered_pr (length s) _ after (with_repo (rfind_slash [] before))
      (run_of is_ascii_digit after) low (length-run_of is_ascii_digit after)

length-strip_pull :
    (c : ℕ) (s : Text) → length (rest_of s (strip_prefix (codes "/pull/") (c ∷ s))) ≤ length s
unfolding strip_prefix
length-strip_pull c s = elim (Bool-cases (nat_eqb b'/' c)) [
  | inl slash ↦
      rw slash (length-strip_prefix (length s) (codes "pull/") s s (omega arith) (omega arith))
  | inr other ↦ rw other (omega arith)
]

-- The same for the scan for URLs.
pr_rounds-enough :
    (n m : ℕ) (before s : Text)
    → length s ≤ n
    → length s ≤ m
    → pr_rounds n before s ≡ pr_rounds m before s
unfolding pr_rounds
pr_rounds-enough zero zero before s low enough = refl
pr_rounds-enough zero (suc m) before [] low enough = refl
pr_rounds-enough zero (suc m) before (c ∷ s) low enough = absurd (omega arith)
pr_rounds-enough (suc n) zero before [] low enough = refl
pr_rounds-enough (suc n) zero before (c ∷ s) low enough = absurd (omega arith)
pr_rounds-enough (suc n) (suc m) before [] low enough = refl
pr_rounds-enough (suc n) (suc m) before (c ∷ s) low enough =
    let found = strip_prefix (codes "/pull/") (c ∷ s) in
    let round = pr_round before c s found in
    let shorter = length-pr_round before c s found (length-strip_pull c s) in
    ap (put round.0) (pr_rounds-enough n m round.1.0 round.1.1 (omega arith) (omega arith))
