-- ===== src/Text.antt =====
-- Rust's `str` as the list of its code points. What the program uses of the standard library's
-- text functions is written out here; `utf8_len` is `str::len`, which counts bytes.
use dayseam.Prelude.{
  ℕ, suc, ◌+◌, Bool, true, false, ◌&&◌, ◌||◌, Option, none, some, ◌≡◌, Bool, true, false, ◌&&◌,
  ◌||◌, List, [], ◌∷◌, Option, none, some, ltb, leb, nat_eqb, if◌then◌else◌, Eq, nat_eq, list_eq,
  list_eqb_iff, ◌==◌, ◌↔◌,
}
use Prim.Native.String.{String}
use Prim.Native.Char.{code}

abbrev pub Text : Type 0
Text = List ℕ

-- The code points of a literal.
abbrev pub codes : String → Text
codes String.[] = []
codes (String.◌∷◌ first rest) = code first ∷ codes rest

-- `char::len_utf8`
abbrev pub char_len : ℕ → ℕ
char_len c = if ltb c 0x80 then 1 else if ltb c 0x800 then 2 else if ltb c 0x10000 then 3 else 4

abbrev pub utf8_len : Text → ℕ
utf8_len [] = 0
utf8_len (c ∷ s) = char_len c + utf8_len s

-- Equality of texts.
instance abbrev pub text_eq : Eq Text
text_eq = list_eq

pub text_eqb_iff : (a b : Text) → ((a == b) ≡ true) ↔ (a ≡ b)
text_eqb_iff = list_eqb_iff

-- `char::is_whitespace`: the code points with the property White_Space.
unfoldable pub is_whitespace : ℕ → Bool
is_whitespace c =
    leb 0x9 c && leb c 0xd
    || nat_eqb c 0x20
    || nat_eqb c 0x85
    || nat_eqb c 0xa0
    || nat_eqb c 0x1680
    || leb 0x2000 c && leb c 0x200a
    || nat_eqb c 0x2028
    || nat_eqb c 0x2029
    || nat_eqb c 0x202f
    || nat_eqb c 0x205f
    || nat_eqb c 0x3000

abbrev pub is_empty : Text → Bool
is_empty [] = true
is_empty (c ∷ s) = false

-- `trim_start_matches`, `trim_end_matches` and `trim`.
unfoldable pub trim_start_matches : (ℕ → Bool) → Text → Text
trim_start_matches p [] = []
trim_start_matches p (c ∷ s) = if p c then trim_start_matches p s else c ∷ s

unfoldable pub trim_end_matches : (ℕ → Bool) → Text → Text
trim_end_matches p [] = []
trim_end_matches p (c ∷ s) =
    let rest = trim_end_matches p s in if is_empty rest && p c then [] else c ∷ rest

unfoldable pub trim_start : Text → Text
trim_start = trim_start_matches is_whitespace

unfoldable pub trim : Text → Text
trim s = trim_end_matches is_whitespace (trim_start s)

unfoldable pub strip_prefix : Text → Text → Option Text
strip_prefix [] s = some s
strip_prefix (c ∷ p) [] = none
strip_prefix (c ∷ p) (d ∷ s) = if nat_eqb c d then strip_prefix p s else none

abbrev cons? : ℕ → Option Text → Option Text
cons? c none = none
cons? c (some s) = some (c ∷ s)

unfoldable pub strip_suffix : Text → Text → Option Text
strip_suffix p [] = if is_empty p then some [] else none
strip_suffix p (c ∷ s) = if p == (c ∷ s) then some [] else cons? c (strip_suffix p s)

abbrev pub matched : Option Text → Bool
matched none = false
matched (some s) = true

abbrev pub starts_with : Text → Text → Bool
starts_with p s = matched (strip_prefix p s)

abbrev pub ends_with : Text → Text → Bool
ends_with p s = matched (strip_suffix p s)

abbrev before : ℕ → Option (Text × Text) → Option (Text × Text)
before c none = none
before c (some (s, rest)) = some (c ∷ s, rest)

-- `find(c)`, as the text before the first `c` and the text behind it.
unfoldable pub split_once : ℕ → Text → Option (Text × Text)
split_once c [] = none
split_once c (d ∷ s) =
    let later = before d (split_once c s) in if nat_eqb d c then some ([], s) else later

-- The length of the run of `c` at the head, `take_while(|x| x == c).count()`.
unfoldable pub run_length : ℕ → Text → ℕ
run_length c [] = 0
run_length c (d ∷ s) = let rest = run_length c s in if nat_eqb d c then suc rest else 0
