-- ===== src/Markers/Tests.antt =====
-- A document with prose and one block.
use dayseam.Prelude.{
  ◌≡◌, refl, arith, Bool, true, false, List, [], ◌∷◌, ◌++◌, Option, none, some, Every, nat_eqb,
  nat_eq, if◌then◌else◌, ◌==◌,
}
use dayseam.Prelude.Results.{ok}
use dayseam.Text.{
  Text, codes, text_eq, is_whitespace, trim_start, trim, trim_start_matches, trim_end_matches,
  strip_prefix, strip_suffix, split_once, run_length,
}
use dayseam.Markers.Lines.{split_lines, collect}
use dayseam.Markers.Attrs.Rounds.{attrs_loop-enough}
use dayseam.Markers.Attrs.{parse_begin_attrs, iter_attrs, attrs_loop, one_attr}
use dayseam.Markers.Syntax.{
  DateFormat, Block, Segment, prose, block, lf, cr_lf, observe, is_begin_marker, is_end_marker,
  detect_open, line_closes,
}
use dayseam.Markers.Document.{
  parse, render, render_block, splice, run, step, finish, append_line, flush_prose, trimmed,
  is_line_end,
}
use dayseam.Markers.Document.Pieces.{AllSpell, parse-AllSpell}
use dayseam.Markers.Document.Splicing.{Found, splice_replaces, splice_appends, splice_idem}

abbrev shown : Bool → Text
shown true = codes "2026-04-18"
shown false = codes "2026-04-19"

abbrev bool_eqb : Bool → Bool → Bool
bool_eqb true b = b
bool_eqb false true = false
bool_eqb false false = true

abbrev read : Text → Option Bool
read s = if s == shown true then some true else if s == shown false then some false else none

read-shown : (d : Bool) → read (shown d) ≡ some d
read-shown true = refl
read-shown false = refl

shown_plain :
    (d : Bool) → Every (λ c. (nat_eqb c b'"' ≡ false) × (nat_eqb c b'\n' ≡ false)) (shown d)
shown_plain true = ground arith
shown_plain false = ground arith

-- Two days.
abbrev two_days : DateFormat
two_days = record {
  Date = Bool;
  date_eq = record { beq = bool_eqb; beq_iff = λ a b. ground arith };
  parse_date = read;
  show_date = shown;
  parse_date-show_date = read-shown;
  show_date_plain = shown_plain;
}

abbrev old : Block two_days
old = record {
  attrs = record { date = true; run_id = codes "r"; template = codes "t"; version = codes "1" };
  body = codes "- one\n";
  line_ending = cr_lf;
}

abbrev new : Block two_days
new = record old { body = codes "- two\n"; line_ending = lf }

abbrev segments : List (Segment two_days)
segments = prose (codes "# Notes\n") ∷ block old ∷ prose (codes "end") ∷ []

splice_replaces_example :
    (found : Found two_days new segments) × ((splice two_days segments new).1 ≡ true)
    × (render two_days segments
        ≡ render two_days found.front
          ++ (render_block two_days found.existing ++ render two_days found.back))
    × (render two_days (splice two_days segments new).0
        ≡ render two_days found.front
          ++ (render_block two_days (record new { line_ending = found.existing.line_ending })
              ++ render two_days found.back))
splice_replaces_example = splice_replaces two_days new segments refl

abbrev notes : List (Segment two_days)
notes = prose (codes "# Notes") ∷ []

splice_appends_example :
    ((splice two_days notes new).1 ≡ false)
    × (render two_days (splice two_days notes new).0
        ≡ render two_days notes ++ (b'\n' ∷ [] ++ render_block two_days new))
    × (splice two_days [] new ≡ (block new ∷ [], false))
unfolding strip_suffix
splice_appends_example = splice_appends two_days new [] (prose (codes "# Notes")) refl

splice_idem_example :
    splice two_days (splice two_days segments new).0 new ≡ ((splice two_days segments new).0, true)
splice_idem_example = splice_idem two_days new segments

abbrev sample : Text
sample =
    codes "# Notes\n```\n<!-- dayseam:end -->\n```\n"
    ++ (codes
          "<!-- dayseam:begin date=\"2026-04-18\" run_id=\"r\" template=\"t\" version=\"1\" -->\n"
        ++ codes "- one\n<!-- dayseam:end -->\nend")

abbrev sample_segments : List (Segment two_days)
sample_segments =
    prose (codes "# Notes\n```\n<!-- dayseam:end -->\n```\n")
    ∷ block (record old { line_ending = lf })
    ∷ prose (codes "end")
    ∷ []

parsed : parse two_days sample ≡ ok sample_segments
unfolding parse run step finish append_line flush_prose trimmed is_line_end parse_begin_attrs
    iter_attrs attrs_loop one_attr split_lines collect is_whitespace trim_start trim
    trim_start_matches trim_end_matches strip_prefix strip_suffix split_once run_length observe
    is_begin_marker is_end_marker detect_open line_closes
parsed = refl

parse-AllSpell_example : AllSpell two_days sample_segments sample
parse-AllSpell_example = parse-AllSpell two_days sample sample_segments parsed

attrs_loop-enough_example :
    attrs_loop 20 (codes "run_id=\"r\" v=\"1\"") []
    ≡ attrs_loop 17 (codes "run_id=\"r\" v=\"1\"") []
attrs_loop-enough_example =
    attrs_loop-enough 20 17 (codes "run_id=\"r\" v=\"1\"") [] (omega arith) (omega arith)
