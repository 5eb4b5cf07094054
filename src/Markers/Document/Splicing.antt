-- ===== src/Markers/Document/Splicing.antt =====
-- What `splice` changes, and what it leaves alone.
use mathlib.Core.Bool.{false≢true}
use mathlib.Core.List.{append_assoc, append-nil}
use dayseam.Prelude.{
  ◌≡◌, refl, sym, ap, ◌∙◌, arith, Bool, true, false, not, ◌||◌, List, [], ◌∷◌, ◌++◌, none, some,
  if◌then◌else◌, any, Bool-cases, inl, inr, beq_refl,
}
use dayseam.Text.{Text, codes, ends_with}
use dayseam.Markers.Syntax.{DateFormat, Block, Segment, prose, block}
use dayseam.Markers.Document.{
  replace, behind, ensure_trailing_newline, splice, render, render_block,
}

module _ (f : DateFormat) where
  -- A block of the same date as `b`.
  abbrev pub same_day : Block f → Segment f → Bool
  same_day b (prose p) = false
  same_day b (block existing) = f.date_eq.beq existing.attrs.date b.attrs.date

  -- The first block of this date, with the segments before and behind it.
  pub record Found (b : Block f) (segments : List (Segment f)) : Type 0 where
    pub front : List (Segment f)
    pub existing : Block f
    pub back : List (Segment f)
    pub splits : segments ≡ front ++ block existing ∷ back
    pub same : f.date_eq.beq existing.attrs.date b.attrs.date ≡ true
    pub is_first : any (same_day b) front ≡ false

  abbrev renewed : Block f → Block f → Block f
  renewed existing b = record b { line_ending = existing.line_ending }

  Found-cons :
      (b : Block f) (s : Segment f) (segments : List (Segment f))
      → same_day b s ≡ false
      → Found b segments
      → Found b (s ∷ segments)
  Found-cons b s segments other found = record {
    front = s ∷ found.front;
    existing = found.existing;
    back = found.back;
    splits = ap (◌∷◌ s) found.splits;
    same = found.same;
    is_first = rw other found.is_first;
  }

  find_first :
      (b : Block f) (segments : List (Segment f))
      → any (same_day b) segments ≡ true
      → Found b segments
  find_first b [] h = absurd (false≢true h)
  find_first b (prose p ∷ segments) h =
      Found-cons b (prose p) segments refl (find_first b segments h)
  find_first b (block x ∷ segments) h =
      elim (Bool-cases (f.date_eq.beq x.attrs.date b.attrs.date)) [
        | inl e ↦ record {
          front = [];
          existing = x;
          back = segments;
          splits = refl;
          same = e;
          is_first = refl;
        }
        | inr e ↦ Found-cons b (block x) segments e (find_first b segments (rw e at h))
      ]

  replace-none :
      (b : Block f) (segments : List (Segment f))
      → any (same_day b) segments ≡ false
      → replace f b segments ≡ none
  unfolding replace
  replace-none b [] h = refl
  replace-none b (prose p ∷ segments) h = rw (replace-none b segments h) refl
  replace-none b (block x ∷ segments) h = ground (arith, replace-none b segments)

  replace-append :
      (b : Block f) (front back : List (Segment f))
      → any (same_day b) front ≡ false
      → (existing : Block f) → f.date_eq.beq existing.attrs.date b.attrs.date ≡ true
      → replace f b (front ++ block existing ∷ back)
        ≡ some (front ++ block (renewed existing b) ∷ back)
  unfolding replace
  replace-append b [] back h existing e = rw e refl
  replace-append b (prose p ∷ front) back h existing e =
      ap (behind f (prose p)) (replace-append b front back h existing e)
  replace-append b (block x ∷ front) back h existing e =
      ground (arith, replace-append b front back (ground arith) existing e)

  render-append : (xs ys : List (Segment f)) → render f (xs ++ ys) ≡ render f xs ++ render f ys
  unfolding render
  render-append [] ys = refl
  render-append (prose p ∷ xs) ys = rw (render-append xs ys, append_assoc) refl
  render-append (block b ∷ xs) ys = rw (render-append xs ys, append_assoc) refl

  -- If a block of the new block's date exists, `splice` answers `true` and replaces the first such
  -- block alone: in the rendered document, what stands before it and what stands behind it stay as
  -- they are, character by character, and between them stands the new block, with the line ending
  -- of the old one.
  pub splice_replaces :
      (b : Block f) (segments : List (Segment f))
      → any (same_day b) segments ≡ true
      → (found : Found b segments) × ((splice f segments b).1 ≡ true)
        × (render f segments
            ≡ render f found.front ++ (render_block f found.existing ++ render f found.back))
        × (render f (splice f segments b).0
            ≡ render f found.front
              ++ (render_block f (record b { line_ending = found.existing.line_ending })
                  ++ render f found.back))
  unfolding splice
  splice_replaces b segments h =
      let found = find_first b segments h in
      let replaced =
        replace-append b found.front found.back found.is_first found.existing found.same in
      (
        found,
        rw (found.splits, replaced) refl,
        rw found.splits
            (render-append found.front (block found.existing ∷ found.back) ∙ unfold render in refl),
        rw (found.splits, replaced)
            (render-append found.front (block (renewed found.existing b) ∷ found.back)
              ∙ unfold render in refl),
      )

  -- The text that `ensure_trailing_newline` adds.
  separator : List (Segment f) → Text
  separator [] = []
  separator (prose p ∷ []) = if not (ends_with (codes "\n") p) then b'\n' ∷ [] else []
  separator (block b ∷ []) = []
  separator (s ∷ t ∷ segments) = separator (t ∷ segments)

  render-ensure_trailing_newline :
      (segments : List (Segment f))
      → render f (ensure_trailing_newline f segments) ≡ render f segments ++ separator segments
  unfolding render ensure_trailing_newline separator
  render-ensure_trailing_newline [] = refl
  render-ensure_trailing_newline (prose p ∷ []) = elim (Bool-cases (ends_with (codes "\n") p)) [
    | inl e ↦ rw (e, append-nil, append-nil) refl
    | inr e ↦ rw (e, append-nil, append-nil) refl
  ]
  render-ensure_trailing_newline (block b ∷ []) = sym (append-nil _)
  render-ensure_trailing_newline (prose p ∷ t ∷ segments) =
      ap (λ r. p ++ r) (render-ensure_trailing_newline (t ∷ segments))
      ∙ sym (append_assoc p (render f (t ∷ segments)) (separator (t ∷ segments)))
  render-ensure_trailing_newline (block b ∷ t ∷ segments) =
      ap (λ r. render_block f b ++ r) (render-ensure_trailing_newline (t ∷ segments))
      ∙ sym (append_assoc (render_block f b) (render f (t ∷ segments)) (separator (t ∷ segments)))

  any-ensure_trailing_newline :
      (b : Block f) (segments : List (Segment f))
      → any (same_day b) (ensure_trailing_newline f segments) ≡ any (same_day b) segments
  unfolding ensure_trailing_newline
  any-ensure_trailing_newline b [] = refl
  any-ensure_trailing_newline b (prose p ∷ []) = refl
  any-ensure_trailing_newline b (block x ∷ []) = refl
  any-ensure_trailing_newline b (prose p ∷ t ∷ segments) =
      any-ensure_trailing_newline b (t ∷ segments)
  any-ensure_trailing_newline b (block x ∷ t ∷ segments) =
      ap (λ r. f.date_eq.beq x.attrs.date b.attrs.date || r)
        (any-ensure_trailing_newline b (t ∷ segments))

  -- What stands between the last segment and a block that is appended behind it.
  abbrev pub gap_behind : Segment f → Text
  gap_behind (prose p) = if ends_with (codes "\n") p then [] else b'\n' ∷ []
  gap_behind (block b) = []

  separator-append :
      (before : List (Segment f)) (last : Segment f)
      → separator (before ++ last ∷ []) ≡ gap_behind last
  unfolding separator
  separator-append [] (prose p) = ground arith
  separator-append [] (block b) = refl
  separator-append (s ∷ []) last = separator-append [] last
  separator-append (s ∷ t ∷ before) last = separator-append (t ∷ before) last

  splice-separator :
      (b : Block f) (segments : List (Segment f))
      → any (same_day b) segments ≡ false
      → ((splice f segments b).1 ≡ false)
        × (render f (splice f segments b).0
            ≡ render f segments ++ (separator segments ++ render_block f b))
  unfolding splice
  splice-separator b segments h = (
    rw (replace-none b segments h) refl,
    rw (replace-none b segments h) (
        render-append (ensure_trailing_newline f segments) (block b ∷ [])
        ∙ rw (render-ensure_trailing_newline segments, append_assoc)
            (unfold render in rw append-nil refl)),
  )

  -- If no block of the new block's date stands in a document, `splice` answers `false`. Into an empty
  -- document it puts the new block alone. Otherwise the rendered document is the old one, a newline
  -- exactly if the last segment is prose that does not end in one, and the new block.
  pub splice_appends :
      (b : Block f) (before : List (Segment f)) (last : Segment f)
      → any (same_day b) (before ++ last ∷ []) ≡ false
      → ((splice f (before ++ last ∷ []) b).1 ≡ false)
        × (render f (splice f (before ++ last ∷ []) b).0
            ≡ render f (before ++ last ∷ []) ++ (gap_behind last ++ render_block f b))
        × (splice f [] b ≡ (block b ∷ [], false))
  unfolding splice ensure_trailing_newline replace
  splice_appends b before last h =
      let (appended, text) = splice-separator b (before ++ last ∷ []) h in
      (appended, rw (← separator-append before last) text, refl)

  -- A second splice of the same block finds the first one's block and changes nothing more.
  pub splice_idem :
      (b : Block f) (segments : List (Segment f))
      → splice f (splice f segments b).0 b ≡ ((splice f segments b).0, true)
  unfolding splice
  splice_idem b segments = elim (Bool-cases (any (same_day b) segments)) [
    | inl h ↦
        let found = find_first b segments h in
        let replaced = replace-append b found.front found.back found.is_first in
        rw (found.splits, replaced found.existing found.same)
          (rw (replaced (renewed found.existing b) (beq_refl ⦃e = f.date_eq⦄ b.attrs.date)) refl)
    | inr h ↦ rw (replace-none b segments h) (
        rw
          (replace-append b (ensure_trailing_newline f segments) []
            (any-ensure_trailing_newline b segments ∙ h) b (beq_refl ⦃e = f.date_eq⦄ b.attrs.date))
          refl)
  ]
