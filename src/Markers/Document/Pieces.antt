-- ===== src/Markers/Document/Pieces.antt =====
-- Parsing loses nothing: the segments of a parsed text spell the text.
use mathlib.Core.Bool.{false≢true}
use mathlib.Core.List.{append_assoc, append-nil}
use dayseam.Prelude.{
  ℕ, ◌+◌, ◌≡◌, ◌≢◌, refl, sym, ap, ◌∙◌, arith, true, List, [], ◌∷◌, ◌++◌, Option, none, some,
  if◌then◌else◌, Bool-cases, Option-cases, inl, inr,
}
use dayseam.Prelude.Results.{ok, >>=-eq-ok, ok-injective}
use dayseam.Text.{Text, is_empty}
use dayseam.Markers.Syntax.{
  DateFormat, LineEnding, observe, is_begin_marker, is_end_marker, FenceSentinel, detect_open,
  line_closes, MarkerAttrs, Segment, prose, block,
}
use dayseam.Markers.Lines.{split_lines, concat, split_lines-lines, concat-lines}
use dayseam.Markers.Attrs.{parse_begin_attrs}
use dayseam.Markers.Document.{
  trimmed, Open, Parser, append_line, flush_prose, close_block, plain_line, unfenced_line, step_in,
  step, run, finish, finish_in, initial, parse,
}

is_empty_lem : (s : Text) → is_empty s ≡ true → s ≡ []
is_empty_lem [] h = refl
is_empty_lem (c ∷ s) h = cc

module _ (f : DateFormat) where
  -- A line that begins a block with these attributes and this line ending.
  abbrev pub Begins : Text → MarkerAttrs f → LineEnding → Type 0
  Begins line attrs ending =
      (is_begin_marker (trimmed line) ≡ true)
      × ((line_no : ℕ) × (parse_begin_attrs f (trimmed line) line_no ≡ ok attrs))
      × (observe line ≡ ending)

  -- The text of a segment: a prose's own text, or a begin line, the body and an end line.
  abbrev pub Spells : Segment f → Text → Type 0
  Spells (prose p) raw = (raw ≡ p) × (p ≢ [])
  Spells (block b) raw =
      (begin : Text) × (end : Text) × (raw ≡ begin ++ (b.body ++ end))
      × Begins begin b.attrs b.line_ending
      × (is_end_marker (trimmed end) ≡ true)

  abbrev pub AllSpell : List (Segment f) → Text → Type 0
  AllSpell [] text = text ≡ []
  AllSpell (s ∷ segments) text =
      (raw : Text) × (rest : Text) × (text ≡ raw ++ rest) × Spells s raw × AllSpell segments rest

  AllSpell-append :
      (segments : List (Segment f)) (s : Segment f) (text raw : Text)
      → AllSpell segments text
      → Spells s raw
      → AllSpell (segments ++ s ∷ []) (text ++ raw)
  AllSpell-append [] s text raw h p = (raw, [], rw (h, append-nil), p, refl)
  AllSpell-append (x ∷ segments) s text raw (r, rest, e, here, h) p =
      (r, rest ++ raw, rw (e, append_assoc), here, AllSpell-append segments s rest raw h p)

  -- What has been read but not yet put into a segment.
  abbrev Pending : Option (Open f) → Text → Text → Text → Type 0
  Pending none buf base read = read ≡ base ++ buf
  Pending (some o) buf base read =
      (buf ≡ [])
      × ((begin : Text) × Begins begin o.attrs o.line_ending × (read ≡ base ++ (begin ++ o.body)))

  abbrev Inv : Parser f → Text → Type 0
  Inv s read = (base : Text) × AllSpell s.segments base × Pending s.open_block s.prose_buf base read

  abbrev state : List (Segment f) → Text → Option (Open f) → Option FenceSentinel → Parser f
  state segments buf o fence = record {
    segments = segments;
    prose_buf = buf;
    open_block = o;
    fence = fence;
  }

  append_line-Inv :
      (o : Option (Open f)) (segments : List (Segment f)) (buf : Text)
      (fence : Option FenceSentinel) (read line : Text)
      → Inv (state segments buf o fence) read
      → Inv (append_line f (state segments buf o fence) line) (read ++ line)
  unfolding append_line
  append_line-Inv none segments buf fence read line (base, h, e) = (base, h, rw (e, append_assoc))
  append_line-Inv (some o) segments buf fence read line (base, h, (nil, (begin, starts, e))) =
      (base, h, (nil, (begin, starts, rw (e, append_assoc, append_assoc))))

  flush_prose-AllSpell :
      (s : Parser f) (base : Text)
      → AllSpell s.segments base
      → AllSpell (flush_prose f s) (base ++ s.prose_buf)
  unfolding flush_prose
  flush_prose-AllSpell s base h = elim (Bool-cases (is_empty s.prose_buf)) [
    | inl e ↦ rw e (rw (is_empty_lem s.prose_buf e, append-nil) h)
    | inr e ↦ rw e (
        AllSpell-append s.segments (prose s.prose_buf) base s.prose_buf h
          (refl, λ n. false≢true (sym e ∙ ap is_empty n)))
  ]

  begin_block-Inv :
      (segments : List (Segment f)) (buf : Text) (fence : Option FenceSentinel)
      (attrs : MarkerAttrs f) (line_no : ℕ) (read line : Text)
      → Inv (state segments buf none fence) read
      → is_begin_marker (trimmed line) ≡ true
      → parse_begin_attrs f (trimmed line) line_no ≡ ok attrs
      → Inv
          (state
            (flush_prose f (state segments buf none fence))
            []
            (some (record {
              attrs = attrs;
              body = [];
              start_line = line_no;
              line_ending = observe line;
            }))
            fence)
          (read ++ line)
  begin_block-Inv segments buf fence attrs line_no read line (base, h, e) begins parsed = (
    base ++ buf,
    flush_prose-AllSpell (state segments buf none fence) base h,
    (refl, (line, (begins, (line_no, parsed), refl), rw (e, append-nil))),
  )

  close_block-Inv :
      (segments : List (Segment f)) (buf : Text) (fence : Option FenceSentinel) (o : Open f)
      (read line : Text)
      → Inv (state segments buf (some o) fence) read
      → is_end_marker (trimmed line) ≡ true
      → Inv (close_block f (state segments buf (some o) fence) o) (read ++ line)
  unfolding close_block
  close_block-Inv segments buf fence o read line (base, h, (nil, (begin, starts, e))) ends = (
    base ++ (begin ++ (o.body ++ line)),
    AllSpell-append segments
        (block (record { attrs = o.attrs; body = o.body; line_ending = o.line_ending })) base
        (begin ++ (o.body ++ line)) h (begin, line, refl, starts, ends),
    rw (e, nil, append-nil, append_assoc, append_assoc),
  )

  plain_line-Inv :
      (o : Option (Open f)) (segments : List (Segment f)) (buf : Text)
      (fence : Option FenceSentinel) (line_no : ℕ) (read line : Text) (t : Parser f)
      → Inv (state segments buf o fence) read
      → plain_line f o (state segments buf o fence) line_no line ≡ ok t
      → Inv t (read ++ line)
  unfolding plain_line
  plain_line-Inv (some o) segments buf fence line_no read line t h ran =
      elim (Bool-cases (is_end_marker (trimmed line))) [
        | inl ends ↦
            let same : close_block f (state segments buf (some o) fence) o ≡ t = ground arith in
            rw (← same) (close_block-Inv segments buf fence o read line h ends)
        | inr not_end ↦ elim (Bool-cases (is_begin_marker (trimmed line))) [
          | inl begins ↦ ground arith
          | inr other ↦
              let same : append_line f (state segments buf (some o) fence) line ≡ t =
                ground arith in
              rw (← same) (append_line-Inv (some o) segments buf fence read line h)
        ]
      ]
  plain_line-Inv none segments buf fence line_no read line t h ran =
      elim (Bool-cases (is_end_marker (trimmed line))) [
        | inl ends ↦ ground arith
        | inr not_end ↦ elim (Bool-cases (is_begin_marker (trimmed line))) [
          | inl begins ↦
              let (attrs, parsed, built) =
                >>=-eq-ok (parse_begin_attrs f (trimmed line) line_no) _
                  (rw (not_end, begins) at ran) in
              rw (← ok-injective built)
                (begin_block-Inv segments buf fence attrs line_no read line h begins parsed)
          | inr other ↦
              let same : append_line f (state segments buf none fence) line ≡ t = ground arith in
              rw (← same) (append_line-Inv none segments buf fence read line h)
        ]
      ]

  step_in-Inv :
      (fence : Option FenceSentinel) (s : Parser f) (line_no : ℕ) (read line : Text) (t : Parser f)
      → s.fence ≡ fence
      → Inv s read
      → step_in f fence s line_no line ≡ ok t
      → Inv t (read ++ line)
  unfolding step_in unfenced_line
  step_in-Inv (some active) s line_no read line t e h ran = rw (← ok-injective ran) (
      append_line-Inv s.open_block s.segments s.prose_buf
        (if line_closes active (trimmed line) then none else some active) read line h)
  step_in-Inv none s line_no read line t e h ran =
      elim (Option-cases (detect_open (trimmed line))) [
        | inl plain ↦
            plain_line-Inv s.open_block s.segments s.prose_buf s.fence line_no read line t h
              (rw plain at ran)
        | inr (opened, found) ↦
            rw (← ok-injective (rw found at ran))
              (append_line-Inv s.open_block s.segments s.prose_buf (some opened) read line h)
      ]

  step-Inv :
      (s : Parser f) (line_no : ℕ) (read line : Text) (t : Parser f)
      → Inv s read
      → step f s line_no line ≡ ok t
      → Inv t (read ++ line)
  unfolding step
  step-Inv s line_no read line t h ran = step_in-Inv s.fence s line_no read line t refl h ran

  run-Inv :
      (ls : List Text) (s : Parser f) (line_no : ℕ) (read : Text) (t : Parser f)
      → Inv s read
      → run f s line_no ls ≡ ok t
      → Inv t (read ++ concat ls)
  unfolding run concat
  run-Inv [] s line_no read t h ran = rw append-nil (rw (← ok-injective ran) h)
  run-Inv (line ∷ ls) s line_no read t h ran =
      let (u, stepped, rest) = >>=-eq-ok (step f s line_no line) _ ran in
      rw (← append_assoc read line (concat ls)) (
        run-Inv ls u (line_no + 1) (read ++ line) t (step-Inv s line_no read line u h stepped) rest)

  finish_in-AllSpell :
      (o : Option (Open f)) (s : Parser f) (read : Text) (segments : List (Segment f))
      → s.open_block ≡ o
      → Inv s read
      → finish_in f o s ≡ ok segments
      → AllSpell segments read
  unfolding finish_in
  finish_in-AllSpell (some o) s read segments e h ran = absurd (cc)
  finish_in-AllSpell none s read segments e (base, h, p) ran =
      let pending : read ≡ base ++ s.prose_buf = rw e at p in
      rw (← ok-injective ran, pending) (flush_prose-AllSpell s base h)

  finish-AllSpell :
      (s : Parser f) (read : Text) (segments : List (Segment f))
      → Inv s read
      → finish f s ≡ ok segments
      → AllSpell segments read
  unfolding finish
  finish-AllSpell s read segments h ran = finish_in-AllSpell s.open_block s read segments refl h ran

  -- A text that parses is spelled by its segments, in their order and with nothing between them:
  -- a prose is a part of the text, character by character, and a block is a begin line that holds
  -- the block's attributes, the block's body, character by character, and an end line.
  pub parse-AllSpell :
      (text : Text) (segments : List (Segment f))
      → parse f text ≡ ok segments
      → AllSpell segments text
  unfolding parse
  parse-AllSpell text segments parsed =
      let (t, ran, finished) = >>=-eq-ok (run f (initial f) 1 (split_lines text)) _ parsed in
      let read = run-Inv (split_lines text) (initial f) 1 [] t ([], refl, refl) ran in
      finish-AllSpell t text segments (rw (split_lines-lines, concat-lines) at read) finished
