-- ===== src/Markers/Attrs.antt =====
-- `parse_begin_attrs` and `iter_attrs`. What the source reports as a text is a `Detail` here.
pub mod Rounds
use dayseam.Prelude.{
  ℕ, zero, suc, ◌||◌, List, [], ◌∷◌, ◌++◌, Option, none, some, nat_eqb, if◌then◌else◌, length, any,
  ◌==◌,
}
use dayseam.Prelude.Results.{Result, ok, err, ◌>>=◌}
use dayseam.Text.{
  Text, codes, text_eq, is_empty, is_whitespace, trim, trim_start, split_once, strip_prefix,
  strip_suffix,
}
use dayseam.Markers.Syntax.{
  begin_prefix, begin_suffix, DateFormat, MarkerAttrs, MarkerError, malformed_begin, Detail,
  not_wrapped, expected_pair, malformed_key, unquoted, unterminated, bad_date, missing_date,
  missing_run_id, missing_template, missing_version,
}

-- One round of the loop of `iter_attrs`: the pair at the head, and what follows it.
closing : Text → Option (Text × Text) → Result Detail ((Text × Text) × Text)
closing key none = err unterminated
closing key (some (value, rest)) = ok ((key, value), trim_start rest)

quoted : Text → Text → Result Detail ((Text × Text) × Text)
unfolding closing
quoted key [] = err unquoted
quoted key (c ∷ after_quote) =
    if nat_eqb c b'"' then closing key (split_once b'"' after_quote) else err unquoted

keyed : Option (Text × Text) → Result Detail ((Text × Text) × Text)
unfolding quoted
keyed none = err expected_pair
keyed (some (before_eq, after_eq)) =
    let key = trim before_eq in
    if is_empty key || any is_whitespace key
    then err malformed_key
    else quoted key (trim_start after_eq)

unfoldable pub one_attr : Text → Result Detail ((Text × Text) × Text)
unfolding keyed
one_attr rest = keyed (split_once b'=' rest)

-- Every round takes a character at least, so a text of n characters needs n rounds at most.
unfoldable pub attrs_loop : ℕ → Text → List (Text × Text) → Result Detail (List (Text × Text))
attrs_loop zero rest out = ok out
attrs_loop (suc n) rest out =
    if is_empty rest
    then ok out
    else (one_attr rest >>= λ (attr, later). attrs_loop n later (out ++ attr ∷ []))

unfoldable pub iter_attrs : Text → Result Detail (List (Text × Text))
iter_attrs s = let rest = trim s in attrs_loop (length rest) rest []

require : {A : Type 0} → Detail → Option A → Result Detail A
require detail none = err detail
require detail (some a) = ok a

at_line : {A : Type 0} → ℕ → Result Detail A → Result MarkerError A
at_line line_no (ok a) = ok a
at_line line_no (err detail) = err (malformed_begin line_no detail)

module _ (f : DateFormat) where
  record Found : Type 0 where
    date : Option f.Date
    run_id : Option Text
    template : Option Text
    version : Option Text

  set_date : Found → Option f.Date → Result Detail Found
  set_date found none = err bad_date
  set_date found (some d) = ok (record found { date = some d })

  -- The `match key`: an unknown key is ignored.
  take_attr : Found → Text × Text → Result Detail Found
  unfolding set_date
  take_attr found (key, value) =
      if key == codes "date"
      then set_date found (f.parse_date value)
      else if key == codes "run_id"
      then ok (record found { run_id = some value })
      else if key == codes "template"
      then ok (record found { template = some value })
      else if key == codes "version"
      then ok (record found { version = some value })
      else ok found

  take_attrs : Found → List (Text × Text) → Result Detail Found
  unfolding take_attr
  take_attrs found [] = ok found
  take_attrs found (attr ∷ attrs) = take_attr found attr >>= λ next. take_attrs next attrs

  complete : Found → Result Detail (MarkerAttrs f)
  unfolding require
  complete found = do
    date ← require missing_date found.date
    run_id ← require missing_run_id found.run_id
    template ← require missing_template found.template
    version ← require missing_version found.version
    ok (record { date = date; run_id = run_id; template = template; version = version })

  inner_attrs : Option Text → Result Detail (MarkerAttrs f)
  unfolding take_attrs complete iter_attrs
  inner_attrs none = err not_wrapped
  inner_attrs (some inner) = do
    attrs ← iter_attrs (trim inner)
    found ←
        take_attrs (record { date = none; run_id = none; template = none; version = none }) attrs
    complete found

  strip_wrapping : Text → Option Text
  strip_wrapping trimmed = elim (strip_prefix begin_prefix trimmed) [
    | none ↦ none
    | some s ↦ strip_suffix begin_suffix s
  ]

  unfoldable pub parse_begin_attrs : Text → ℕ → Result MarkerError (MarkerAttrs f)
  unfolding inner_attrs strip_wrapping at_line
  parse_begin_attrs trimmed line_no = at_line line_no (inner_attrs (strip_wrapping trimmed))
