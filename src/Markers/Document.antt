-- ===== src/Markers/Document.antt =====
-- `parse`, `render` and `splice`. The parser's variables are a record; a slot of `open` holds the
-- block that is being read.
pub mod Pieces
pub mod Splicing
use dayseam.Prelude.{
  ℕ, suc, ◌+◌, Bool, true, false, not, ◌&&◌, ◌||◌, List, [], ◌∷◌, ◌++◌, Option, none, some, nat_eqb,
  if◌then◌else◌,
}
use dayseam.Prelude.Results.{Result, ok, err, ◌>>=◌}
use dayseam.Text.{Text, codes, is_empty, trim, trim_end_matches, ends_with}
use dayseam.Markers.Syntax.{
  begin_prefix, begin_suffix, end_marker, DateFormat, LineEnding, observe, terminator,
  ends_with_compatible_newline, is_begin_marker, is_end_marker, FenceSentinel, detect_open,
  line_closes, MarkerError, nested_begin, unclosed_begin, dangling_end, MarkerAttrs, Block, Segment,
  prose, block,
}
use dayseam.Markers.Lines.{split_lines}
use dayseam.Markers.Attrs.{parse_begin_attrs}

unfoldable pub is_line_end : ℕ → Bool
is_line_end c = nat_eqb c b'\r' || nat_eqb c b'\n'

-- `line.trim_end_matches(['\r', '\n']).trim()`
unfoldable pub trimmed : Text → Text
unfolding is_line_end
trimmed line = trim (trim_end_matches is_line_end line)

module _ (f : DateFormat) where
  pub record Open : Type 0 where
    pub attrs : MarkerAttrs f
    pub body : Text
    pub start_line : ℕ
    pub line_ending : LineEnding

  pub record Parser : Type 0 where
    pub segments : List (Segment f)
    pub prose_buf : Text
    pub open_block : Option Open
    pub fence : Option FenceSentinel

  -- The line goes to the body of the open block, or to the prose.
  append_to : Option Open → Parser → Text → Parser
  append_to none s line = record s { prose_buf = s.prose_buf ++ line }
  append_to (some o) s line = record s { open_block = some (record o { body = o.body ++ line }) }

  unfoldable pub append_line : Parser → Text → Parser
  unfolding append_to
  append_line s line = append_to s.open_block s line

  unfoldable pub flush_prose : Parser → List (Segment f)
  flush_prose s =
      if not (is_empty s.prose_buf) then s.segments ++ prose s.prose_buf ∷ [] else s.segments

  close_block : Parser → Open → Parser
  close_block s o = record s {
    segments =
        s.segments
        ++ block (record { attrs = o.attrs; body = o.body; line_ending = o.line_ending }) ∷ [];
    open_block = none;
  }

  -- A line outside fences, in an open block or outside blocks.
  plain_line : Option Open → Parser → ℕ → Text → Result MarkerError Parser
  unfolding close_block append_line flush_prose
  plain_line (some o) s line_no line =
      if is_end_marker (trimmed line)
      then ok (close_block s o)
      else if is_begin_marker (trimmed line)
      then err (nested_begin line_no)
      else ok (append_line s line)
  plain_line none s line_no line =
      if is_end_marker (trimmed line)
      then err (dangling_end line_no)
      else if is_begin_marker (trimmed line)
      then (parse_begin_attrs f (trimmed line) line_no >>= λ attrs. ok (record s {
        segments = flush_prose s;
        prose_buf = [];
        open_block =
            some (record {
              attrs = attrs;
              body = [];
              start_line = line_no;
              line_ending = observe line;
            });
      }))
      else ok (append_line s line)

  unfenced_line : Option FenceSentinel → Parser → ℕ → Text → Result MarkerError Parser
  unfolding plain_line append_line
  unfenced_line (some opened) s line_no line =
      ok (append_line (record s { fence = some opened }) line)
  unfenced_line none s line_no line = plain_line s.open_block s line_no line

  step_in : Option FenceSentinel → Parser → ℕ → Text → Result MarkerError Parser
  unfolding unfenced_line append_line
  step_in (some active) s line_no line = ok (
      append_line
        (record s { fence = if line_closes active (trimmed line) then none else some active }) line)
  step_in none s line_no line = unfenced_line (detect_open (trimmed line)) s line_no line

  unfoldable pub step : Parser → ℕ → Text → Result MarkerError Parser
  unfolding step_in
  step s line_no line = step_in s.fence s line_no line

  unfoldable pub run : Parser → ℕ → List Text → Result MarkerError Parser
  run s line_no [] = ok s
  run s line_no (line ∷ ls) = step s line_no line >>= λ t. run t (line_no + 1) ls

  finish_in : Option Open → Parser → Result MarkerError (List (Segment f))
  unfolding flush_prose
  finish_in (some o) s = err (unclosed_begin o.start_line)
  finish_in none s = ok (flush_prose s)

  unfoldable pub finish : Parser → Result MarkerError (List (Segment f))
  unfolding finish_in
  finish s = finish_in s.open_block s

  abbrev pub initial : Parser
  initial = record { segments = []; prose_buf = []; open_block = none; fence = none }

  unfoldable pub parse : Text → Result MarkerError (List (Segment f))
  parse text = run initial 1 (split_lines text) >>= finish

  pub begin_line : MarkerAttrs f → Text
  begin_line attrs =
      begin_prefix
      ++ (codes "date=\""
          ++ (f.show_date attrs.date
              ++ (codes "\" run_id=\""
                  ++ (attrs.run_id
                      ++ (codes "\" template=\""
                          ++ (attrs.template
                              ++ (codes "\" version=\""
                                  ++ (attrs.version ++ (codes "\"" ++ begin_suffix)))))))))

  -- What `render_block_into` appends.
  pub render_block : Block f → Text
  unfolding begin_line
  render_block b =
      begin_line b.attrs
      ++ (terminator b.line_ending
          ++ (b.body
              ++ ((if not (is_empty b.body)
                      && not (ends_with_compatible_newline b.body b.line_ending)
                    then terminator b.line_ending
                    else [])
                  ++ (end_marker ++ terminator b.line_ending))))

  pub render : List (Segment f) → Text
  unfolding render_block
  render [] = []
  render (prose p ∷ segments) = p ++ render segments
  render (block b ∷ segments) = render_block b ++ render segments

  abbrev pub behind : Segment f → Option (List (Segment f)) → Option (List (Segment f))
  behind s none = none
  behind s (some segments) = some (s ∷ segments)

  -- The loop of `splice`: the segments with the first block of this date replaced, if there is one.
  pub replace : Block f → List (Segment f) → Option (List (Segment f))
  replace new_block [] = none
  replace new_block (prose p ∷ segments) = behind (prose p) (replace new_block segments)
  replace new_block (block existing ∷ segments) =
      let later = behind (block existing) (replace new_block segments) in
      if f.date_eq.beq existing.attrs.date new_block.attrs.date
      then some (block (record new_block { line_ending = existing.line_ending }) ∷ segments)
      else later

  pub ensure_trailing_newline : List (Segment f) → List (Segment f)
  ensure_trailing_newline [] = []
  ensure_trailing_newline (prose p ∷ []) =
      prose (if not (ends_with (codes "\n") p) then p ++ b'\n' ∷ [] else p) ∷ []
  ensure_trailing_newline (block b ∷ []) = block b ∷ []
  ensure_trailing_newline (s ∷ t ∷ segments) = s ∷ ensure_trailing_newline (t ∷ segments)

  spliced : Block f → List (Segment f) → Option (List (Segment f)) → List (Segment f) × Bool
  unfolding ensure_trailing_newline
  spliced new_block segments (some replaced) = (replaced, true)
  spliced new_block segments none =
      (ensure_trailing_newline segments ++ block new_block ∷ [], false)

  pub splice : List (Segment f) → Block f → List (Segment f) × Bool
  unfolding spliced replace
  splice segments new_block = spliced new_block segments (replace new_block segments)
