-- ===== src/Enrich/Passes.antt =====
-- What the passes of the pipeline leave as it is.
use dayseam.Prelude.{
  ◌≡◌, refl, not, ◌&&◌, List, [], ◌∷◌, Option, none, some, map, length, leb, Bool-cases, inl, inr,
}
use dayseam.Text.{Text, text_eq}
use dayseam.Activity.{ActivityEvent, is_commit_authored, EntityRef, entity_kind_eq}
use dayseam.Report.{MergeRequestArtifact, with_parent, has_parent}
use dayseam.Enrich.{with_tickets, max_ticket_keys_per_event}
use dayseam.Report.Tagging.{tagged, first_mr}
use dayseam.Enrich.Links.{
  MrCandidate, annotate_one, with_issue, with_winner, is_transition, with_prs, opens_or_merges,
}

module _ {V : Type 0} where
  -- An event without what the passes after the first may change.
  abbrev pub bare : ActivityEvent V → ActivityEvent V
  bare event = record event { entities = []; parent_external_id = none }

  map-bare :
      (f : ActivityEvent V → ActivityEvent V)
      → ((event : ActivityEvent V) → bare (f event) ≡ bare event)
      → (events : List (ActivityEvent V)) → map bare (map f events) ≡ map bare events
  map-bare f keeps [] = refl
  map-bare f keeps (event ∷ events) = rw (keeps event, map-bare f keeps events) refl

  pub bare-with_tickets :
      (keys : List Text) (event : ActivityEvent V) → bare (with_tickets keys event) ≡ bare event
  bare-with_tickets keys event = elim (Bool-cases (leb (length keys) max_ticket_keys_per_event)) [
    | inl few ↦ rw few refl
    | inr many ↦ rw many refl
  ]

  pub bare-with_prs : (event : ActivityEvent V) → bare (with_prs event) ≡ bare event
  bare-with_prs event = elim (Bool-cases (opens_or_merges event.kind)) [
    | inl opens ↦ rw opens refl
    | inr other ↦ rw other refl
  ]

  bare-with_winner :
      (c : Option MrCandidate) (event : ActivityEvent V) → bare (with_winner c event) ≡ bare event
  bare-with_winner none event = refl
  bare-with_winner (some c) event = refl

  bare-with_issue :
      (pools : Text → List MrCandidate) (issue : Option EntityRef) (event : ActivityEvent V)
      → bare (with_issue pools issue event) ≡ bare event
  bare-with_issue pools none event = refl
  bare-with_issue pools (some issue) event = bare-with_winner _ event

  pub bare-annotate_one :
      (pools : Text → List MrCandidate) (event : ActivityEvent V)
      → bare (annotate_one pools event) ≡ bare event
  bare-annotate_one pools event = elim (Bool-cases (is_transition event.kind)) [
    | inl moves ↦ rw moves (bare-with_issue pools _ event)
    | inr other ↦ rw other refl
  ]

  bare-with_parent :
      (mr : Option Text) (event : ActivityEvent V) → bare (with_parent mr event) ≡ bare event
  bare-with_parent none event = refl
  bare-with_parent (some mr) event = refl

  pub bare-tagged :
      (mrs : List MergeRequestArtifact) (event : ActivityEvent V)
      → bare (tagged mrs event) ≡ bare event
  unfolding tagged
  bare-tagged mrs event =
      elim (Bool-cases
        (is_commit_authored event.kind && not (has_parent event.parent_external_id))) [
          | inl free ↦ rw free (bare-with_parent (first_mr event.external_id mrs) event)
          | inr other ↦ rw other refl
        ]
