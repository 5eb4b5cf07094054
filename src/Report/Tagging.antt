-- ===== src/Report/Tagging.antt =====
-- The index from commits to merge requests against a scan of the merge requests for each event.
use dayseam.Prelude.{
  ◌≡◌, refl, sym, ◌∙◌, ap, arith, Bool, true, false, not, ◌&&◌, ◌||◌, List, [], ◌∷◌, Option, none,
  some, ◌==◌, list_eqb_iff, nat_eq, map, contains, if◌then◌else◌, Bool-cases, Option-cases, inl,
  inr,
}
use dayseam.Prelude.Maps.{lookup}
use dayseam.Text.{Text, text_eq}
use dayseam.Activity.{ActivityEvent, is_commit_authored}
use dayseam.Report.{
  MergeRequestArtifact, or_insert, index_shas, sha_to_mr, has_parent, with_parent, annotate,
  annotate_rolled_into_mr,
}

-- The first of two answers.
abbrev pub or_else : Option Text → Option Text → Option Text
or_else none b = b
or_else (some a) b = some a

-- The first merge request, in the caller's order, whose commits hold the SHA.
pub first_mr : Text → List MergeRequestArtifact → Option Text
first_mr sha [] = none
first_mr sha (mr ∷ mrs) =
    let rest = first_mr sha mrs in if contains mr.commit_shas sha then some mr.external_id else rest

or_else-none : (o : Option Text) → or_else o none ≡ o
or_else-none none = refl
or_else-none (some a) = refl

or_else_both :
    (o : Option Text) (b c : Bool) (mr : Text)
    → or_else (or_else o (if b then some mr else none)) (if c then some mr else none)
      ≡ or_else o (if b || c then some mr else none)
or_else_both (some a) b c mr = refl
or_else_both none true c mr = refl
or_else_both none false c mr = refl

or_else_if :
    (o : Option Text) (b : Bool) (mr : Text) (rest : Option Text)
    → or_else (or_else o (if b then some mr else none)) rest
      ≡ or_else o (if b then some mr else rest)
or_else_if (some a) b mr rest = refl
or_else_if none true mr rest = refl
or_else_if none false mr rest = refl

lookup-or_insert :
    (sha j mr : Text) (index : List (Text × Text))
    → lookup j (or_insert sha mr index)
      ≡ or_else (lookup j index) (if sha == j then some mr else none)
unfolding lookup or_insert
lookup-or_insert sha j mr [] = refl
lookup-or_insert sha j mr ((s, m) ∷ index) = ground (
  arith,
  lookup-or_insert sha j mr index,
  list_eqb_iff s sha,
  list_eqb_iff s j,
  list_eqb_iff sha j,
)

lookup-index_shas :
    (j mr : Text) (shas : List Text) (index : List (Text × Text))
    → lookup j (index_shas mr shas index)
      ≡ or_else (lookup j index) (if contains shas j then some mr else none)
unfolding index_shas
lookup-index_shas j mr [] index = sym (or_else-none (lookup j index))
lookup-index_shas j mr (sha ∷ shas) index =
    lookup-index_shas j mr shas (or_insert sha mr index)
    ∙ ap (λ o. or_else o (if contains shas j then some mr else none))
        (lookup-or_insert sha j mr index)
    ∙ or_else_both (lookup j index) (sha == j) (contains shas j) mr

lookup-sha_to_mr :
    (j : Text) (mrs : List MergeRequestArtifact) (index : List (Text × Text))
    → lookup j (sha_to_mr mrs index) ≡ or_else (lookup j index) (first_mr j mrs)
unfolding sha_to_mr first_mr
lookup-sha_to_mr j [] index = sym (or_else-none (lookup j index))
lookup-sha_to_mr j (mr ∷ mrs) index =
    lookup-sha_to_mr j mrs _
    ∙ ap (λ o. or_else o (first_mr j mrs)) (lookup-index_shas j mr.external_id mr.commit_shas index)
    ∙ or_else_if (lookup j index) (contains mr.commit_shas j) mr.external_id (first_mr j mrs)

module _ {V : Type 0} where
  -- An event alone: a commit that has no parent gets the first merge request that holds it.
  unfoldable pub tagged : List MergeRequestArtifact → ActivityEvent V → ActivityEvent V
  tagged mrs event =
      if is_commit_authored event.kind && not (has_parent event.parent_external_id)
      then with_parent (first_mr event.external_id mrs) event
      else event

  annotate-tagged :
      (mrs : List MergeRequestArtifact) (event : ActivityEvent V)
      → annotate (sha_to_mr mrs []) event ≡ tagged mrs event
  unfolding annotate tagged lookup
  annotate-tagged mrs event =
      rw (lookup-sha_to_mr event.external_id mrs [])
        (elim (Bool-cases (is_commit_authored event.kind)) [
          | inr other ↦ rw other refl
          | inl commit ↦ elim (Bool-cases (has_parent event.parent_external_id)) [
            | inl tagged_before ↦ rw (commit, tagged_before) refl
            | inr free ↦ rw (commit, free) refl
          ]
        ])

  map-annotate :
      (mrs : List MergeRequestArtifact) (events : List (ActivityEvent V))
      → map (annotate (sha_to_mr mrs [])) events ≡ map (tagged mrs) events
  map-annotate mrs [] = refl
  map-annotate mrs (event ∷ events) = rw (annotate-tagged mrs event, map-annotate mrs events) refl

  untagged : (event : ActivityEvent V) → event ≡ tagged [] event
  unfolding tagged first_mr
  untagged event =
      elim (Bool-cases
        (is_commit_authored event.kind && not (has_parent event.parent_external_id))) [
          | inl free ↦ rw free refl
          | inr other ↦ rw other refl
        ]

  map-untagged : (events : List (ActivityEvent V)) → events ≡ map (tagged []) events
  unfolding tagged first_mr
  map-untagged [] = refl
  map-untagged (event ∷ events) =
      ap (λ es. event ∷ es) (map-untagged events)
      ∙ ap (λ e. e ∷ map (tagged []) events) (untagged event)

  -- The index does what a scan of the merge requests for each event does: a commit that has no parent
  -- is tagged with the first merge request, in the caller's order, that lists its SHA, and every other
  -- event stays as it is.
  pub annotate_rolled_into_mr-tagged :
      (events : List (ActivityEvent V)) (mrs : List MergeRequestArtifact)
      → annotate_rolled_into_mr events mrs ≡ map (tagged mrs) events
  unfolding annotate_rolled_into_mr
  annotate_rolled_into_mr-tagged events [] = map-untagged events
  annotate_rolled_into_mr-tagged events (mr ∷ mrs) = map-annotate (mr ∷ mrs) events

  tagged_idem :
      (mrs : List MergeRequestArtifact) (event : ActivityEvent V)
      → tagged mrs (tagged mrs event) ≡ tagged mrs event
  unfolding tagged
  tagged_idem mrs event = elim (Bool-cases (is_commit_authored event.kind)) [
    | inr other ↦ rw other (rw other refl)
    | inl commit ↦ elim (Bool-cases (has_parent event.parent_external_id)) [
      | inl tagged_before ↦ rw (commit, tagged_before) (rw (commit, tagged_before) refl)
      | inr free ↦ elim (Option-cases (first_mr event.external_id mrs)) [
        | inl none_lists ↦ rw (commit, free, none_lists) (rw (commit, free, none_lists) refl)
        | inr (mr, listed) ↦ rw (commit, free, listed) (rw commit refl)
      ]
    ]
  ]

  pub map-tagged_idem :
      (mrs : List MergeRequestArtifact) (events : List (ActivityEvent V))
      → map (tagged mrs) (map (tagged mrs) events) ≡ map (tagged mrs) events
  map-tagged_idem mrs [] = refl
  map-tagged_idem mrs (event ∷ events) = rw (tagged_idem mrs event, map-tagged_idem mrs events) refl

  -- To annotate a second time by the same merge requests changes nothing.
  pub annotate_rolled_into_mr_idem :
      (events : List (ActivityEvent V)) (mrs : List MergeRequestArtifact)
      → annotate_rolled_into_mr (annotate_rolled_into_mr events mrs) mrs
        ≡ annotate_rolled_into_mr events mrs
  annotate_rolled_into_mr_idem events mrs =
      rw (annotate_rolled_into_mr-tagged events mrs)
        (annotate_rolled_into_mr-tagged (map (tagged mrs) events) mrs ∙ map-tagged_idem mrs events)
