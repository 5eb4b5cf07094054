-- ===== src/Markers/Syntax.antt =====
-- The data of markers.rs, line endings, marker lines and fences.
use dayseam.Prelude.{
  ℕ, Bool, false, ◌&&◌, [], ◌∷◌, ◌≡◌, Option, none, some, leb, nat_eqb, if◌then◌else◌, Eq, ◌==◌,
  Every,
}
use dayseam.Text.{Text, codes, text_eq, is_empty, starts_with, ends_with, run_length, utf8_len}

abbrev pub begin_prefix : Text
begin_prefix = codes "<!-- dayseam:begin "

abbrev pub begin_suffix : Text
begin_suffix = codes " -->"

abbrev pub end_marker : Text
end_marker = codes "<!-- dayseam:end -->"

-- What the parser uses of chrono's dates: the parse by `%Y-%m-%d` and the display. The display of
-- a date is read back as this date, and it holds no double quote and no newline.
pub record DateFormat : Type 1 where
  pub Date : Type 0
  pub date_eq : Eq Date
  pub parse_date : Text → Option Date
  pub show_date : Date → Text
  pub parse_date-show_date : (d : Date) → parse_date (show_date d) ≡ some d
  pub show_date_plain :
      (d : Date) → Every (λ c. (nat_eqb c b'"' ≡ false) × (nat_eqb c b'\n' ≡ false)) (show_date d)

pub data LineEnding : Type 0 where
  lf cr_lf : LineEnding

-- `LineEnding::observe`, `push_into` and `is_crlf`.
unfoldable pub observe : Text → LineEnding
observe raw_line = if ends_with (codes "\r\n") raw_line then cr_lf else lf

abbrev pub terminator : LineEnding → Text
terminator lf = b'\n' ∷ []
terminator cr_lf = b'\r' ∷ b'\n' ∷ []

unfoldable pub ends_with_compatible_newline : Text → LineEnding → Bool
ends_with_compatible_newline body cr_lf = ends_with (codes "\r\n") body
ends_with_compatible_newline body lf = ends_with (codes "\n") body

unfoldable pub is_begin_marker : Text → Bool
is_begin_marker trimmed = starts_with begin_prefix trimmed && ends_with begin_suffix trimmed

unfoldable pub is_end_marker : Text → Bool
is_end_marker trimmed = trimmed == end_marker

pub record FenceSentinel : Type 0 where
  pub delim : ℕ
  pub len : ℕ

unfoldable pub detect_open : Text → Option FenceSentinel
detect_open trimmed =
    if leb 3 (run_length b'`' trimmed)
    then some (record { delim = b'`'; len = run_length b'`' trimmed })
    else if leb 3 (run_length b'~' trimmed)
    then some (record { delim = b'~'; len = run_length b'~' trimmed })
    else none

unfoldable pub line_closes : FenceSentinel → Text → Bool
line_closes fence trimmed =
    if is_empty trimmed
    then false
    else (let count = run_length fence.delim trimmed in
        leb fence.len count && nat_eqb (utf8_len trimmed) count)

-- What is wrong with a begin line. The source words it as a text.
pub data Detail : Type 0 where
  not_wrapped expected_pair malformed_key unquoted unterminated bad_date : Detail
  missing_date missing_run_id missing_template missing_version : Detail

pub data MarkerError : Type 0 where
  nested_begin : ℕ → MarkerError
  unclosed_begin : ℕ → MarkerError
  dangling_end : ℕ → MarkerError
  malformed_begin : ℕ → Detail → MarkerError

module _ (f : DateFormat) where
  pub record MarkerAttrs : Type 0 where
    pub date : f.Date
    pub run_id : Text
    pub template : Text
    pub version : Text

  pub record Block : Type 0 where
    pub attrs : MarkerAttrs
    pub body : Text
    pub line_ending : LineEnding

  pub data Segment : Type 0 where
    prose : Text → Segment
    block : Block → Segment
