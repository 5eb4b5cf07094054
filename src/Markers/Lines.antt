-- ===== src/Markers/Lines.antt =====
-- `split_lines_preserving_newlines`.
use dayseam.Prelude.{
  ℕ, zero, suc, ◌≤◌, ◌≡◌, refl, ap, ◌∙◌, arith, Bool, true, false, List, [], ◌∷◌, ◌++◌, Option,
  none, some, nat_eqb, if◌then◌else◌, length, Bool-cases, Option-cases, inl, inr, ◌⊎◌,
}
use dayseam.Text.{Text, split_once}

-- `SplitPreservingNewlines::next`: the next line with its newline, and the rest.
next_line : Text → Option (Text × Text)
next_line [] = none
next_line (c ∷ s) = elim (split_once b'\n' (c ∷ s)) [
  | some (line, rest) ↦ some (line ++ b'\n' ∷ [], rest)
  | none ↦ some (c ∷ s, [])
]

-- The iterator run to its end. A line takes one character at least, so a text of n characters
-- has n lines at most.
unfoldable pub collect : ℕ → Text → List Text
unfolding next_line
collect zero rest = []
collect (suc n) rest = elim (next_line rest) [
  | none ↦ []
  | some (line, later) ↦ line ∷ collect n later
]

unfoldable pub split_lines : Text → List Text
split_lines text = collect (length text) text

-- The lines with no loop: a newline ends a line.
abbrev pub cons_line : ℕ → List Text → List Text
cons_line c [] = (c ∷ []) ∷ []
cons_line c (l ∷ ls) = (c ∷ l) ∷ ls

unfoldable pub lines : Text → List Text
lines [] = []
lines (c ∷ s) = let rest = lines s in if nat_eqb c b'\n' then (c ∷ []) ∷ rest else cons_line c rest

abbrev first_line : Text → Option (Text × Text) → List Text
first_line s (some (line, rest)) = (line ++ b'\n' ∷ []) ∷ lines rest
first_line [] none = []
first_line (c ∷ s) none = (c ∷ s) ∷ []

lines-split_once : (s : Text) → lines s ≡ first_line s (split_once b'\n' s)
unfolding lines split_once
lines-split_once [] = refl
lines-split_once (c ∷ []) = ground arith
lines-split_once (c ∷ d ∷ s) = ground (arith, lines-split_once (d ∷ s))

pub length-split_once :
    (c : ℕ) (s line rest : Text) → split_once c s ≡ some (line, rest) → suc (length rest) ≤ length s
unfolding split_once
length-split_once c [] line rest h = ground arith
length-split_once c (d ∷ s) line rest h = elim (Bool-cases (nat_eqb d c)) [
  | inl e ↦ let same : s ≡ rest = ground arith in omega (arith, ap length same)
  | inr e ↦ elim (Option-cases (split_once c s)) [
    | inl missing ↦ ground arith
    | inr ((l, r), found) ↦
        let same : r ≡ rest = ground arith in
        omega (arith, ap length same, length-split_once c s l r found)
  ]
]

collect_nil : {l : Text} (n : ℕ) → ◌≡◌ {A = List Text} (l ∷ collect n []) (l ∷ [])
unfolding collect
collect_nil zero = refl
collect_nil (suc n) = refl

collect-lines : (n : ℕ) (s : Text) → length s ≤ n → collect n s ≡ lines s
unfolding collect
collect-lines zero [] h = unfold lines in refl
collect-lines zero (c ∷ s) h = absurd (omega arith)
collect-lines (suc n) [] h = unfold lines in refl
collect-lines (suc n) (c ∷ s) h = elim (Option-cases (split_once b'\n' (c ∷ s))) [
  | inl last ↦ rw (lines-split_once (c ∷ s), last, collect) (collect_nil n)
  | inr ((line, rest), found) ↦
      rw (lines-split_once (c ∷ s), found, collect)
        (ap (◌∷◌ (line ++ b'\n' ∷ []))
          (collect-lines n rest (omega (arith, length-split_once b'\n' (c ∷ s) line rest found))))
]

-- The iterator's lines are those of `lines`: the split ends, and misses nothing.
pub split_lines-lines : (text : Text) → split_lines text ≡ lines text
unfolding split_lines
split_lines-lines text = collect-lines (length text) text (omega arith)

unfoldable pub concat : List Text → Text
concat [] = []
concat (l ∷ ls) = l ++ concat ls

concat-cons_line : (c : ℕ) (ls : List Text) → concat (cons_line c ls) ≡ c ∷ concat ls
unfolding concat
concat-cons_line c [] = refl
concat-cons_line c (l ∷ ls) = refl

pub concat-lines : (s : Text) → concat (lines s) ≡ s
unfolding concat lines
concat-lines [] = refl
concat-lines (c ∷ s) = elim (Bool-cases (nat_eqb c b'\n')) [
  | inl e ↦ rw e (ap (◌∷◌ c) (concat-lines s))
  | inr e ↦ rw e (concat-cons_line c (lines s) ∙ ap (◌∷◌ c) (concat-lines s))
]

-- A text that is empty or ends in a newline.
abbrev pub is_closed : Text → Bool
is_closed [] = true
is_closed (c ∷ []) = nat_eqb c b'\n'
is_closed (c ∷ d ∷ s) = is_closed (d ∷ s)

pub lines_newline : (s : Text) → lines (b'\n' ∷ s) ≡ (b'\n' ∷ []) ∷ lines s
unfolding lines
lines_newline s = refl

pub lines_other :
    (c : ℕ) (s : Text) → nat_eqb c b'\n' ≡ false → lines (c ∷ s) ≡ cons_line c (lines s)
unfolding lines
lines_other c s h = rw h refl

cons_line-cons :
    (c : ℕ) (ls : List Text) → (l : Text) × (ms : List Text) × (cons_line c ls ≡ l ∷ ms)
cons_line-cons c [] = (c ∷ [], [], refl)
cons_line-cons c (l ∷ ls) = (c ∷ l, ls, refl)

newline_cases : (c : ℕ) → (c ≡ b'\n') ⊎ (nat_eqb c b'\n' ≡ false)
newline_cases c = ground arith

lines-cons : (c : ℕ) (s : Text) → (l : Text) × (ls : List Text) × (lines (c ∷ s) ≡ l ∷ ls)
lines-cons c s = elim (newline_cases c) [
  | inl e ↦ (b'\n' ∷ [], lines s, rw e (lines_newline s))
  | inr e ↦ let (l, ls, same) = cons_line-cons c (lines s) in (l, ls, lines_other c s e ∙ same)
]

-- The lines of a closed text and what follows it are the lines of both.
pub lines-append : (s t : Text) → is_closed s ≡ true → lines (s ++ t) ≡ lines s ++ lines t
lines-append [] t h = unfold lines in refl
lines-append (c ∷ []) t h = unfold lines in rw h refl
lines-append (c ∷ d ∷ s) t h =
    let ih = lines-append (d ∷ s) t h in
    elim (newline_cases c) [
      | inl e ↦ rw (e, lines_newline, lines_newline) (ap (◌∷◌ (b'\n' ∷ [])) ih)
      | inr e ↦
          let (l, ls, first) = lines-cons d s in
          rw (lines_other c (d ∷ s ++ t) e, lines_other c (d ∷ s) e, ih, first) refl
    ]
