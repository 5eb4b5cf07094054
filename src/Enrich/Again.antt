-- ===== src/Enrich/Again.antt =====
-- A second run of the pipeline.
use mathlib.Core.Bool.{false≢true}
use dayseam.Prelude.{
  ◌≡◌, refl, sym, ◌∙◌, ap, Bool, true, false, not, ◌&&◌, List, Option, none, some, map,
  if◌then◌else◌, Bool-cases, inl, inr, leb, length,
}
use dayseam.Text.{Text, text_eq}
use dayseam.Activity.{ActivityEvent, EntityRef, entity_kind_eq, is_commit_authored}
use dayseam.Report.{MergeRequestArtifact, with_parent, has_parent}
use dayseam.Report.Tagging.{tagged, first_mr}
use dayseam.Enrich.{push_all, ticket_ref, ticket_keys, with_tickets, max_ticket_keys_per_event}
use dayseam.Enrich.Links.{
  MrCandidate, annotate_one, with_issue, with_winner, is_transition, with_prs, github_prs, pr_ref,
  opens_or_merges,
}
use dayseam.Enrich.Carried.{Carries, push_all-Carries, push_all-Carries_more, push_all-still}

module _ {V : Type 0} where
  abbrev pub reparented : Option Text → ActivityEvent V → ActivityEvent V
  reparented parent event = record event { parent_external_id = parent }

  -- What the two passes that push references have pushed.
  abbrev pub HasTickets : ActivityEvent V → Type 0
  HasTickets event =
      leb (length (ticket_keys event)) max_ticket_keys_per_event ≡ true
      → Carries event.entities (map ticket_ref (ticket_keys event))

  abbrev pub HasPrs : ActivityEvent V → Type 0
  HasPrs event =
      opens_or_merges event.kind ≡ true → Carries event.entities (map pr_ref (github_prs event))

  pub with_tickets-still :
      (event : ActivityEvent V) → HasTickets event → with_tickets (ticket_keys event) event ≡ event
  with_tickets-still event has =
      elim (Bool-cases (leb (length (ticket_keys event)) max_ticket_keys_per_event)) [
        | inl few ↦ rw few (
            ap (λ entities. record event { entities = entities })
              (push_all-still event.entities (map ticket_ref (ticket_keys event)) (has few)))
        | inr many ↦ rw many refl
      ]

  pub with_prs-still : (event : ActivityEvent V) → HasPrs event → with_prs event ≡ event
  with_prs-still event has = elim (Bool-cases (opens_or_merges event.kind)) [
    | inl opens ↦ rw opens (
        ap (λ entities. record event { entities = entities })
          (push_all-still event.entities (map pr_ref (github_prs event)) (has opens)))
    | inr other ↦ rw other refl
  ]

  pushed-HasTickets :
      (few : Bool) (event : ActivityEvent V)
      → leb (length (ticket_keys event)) max_ticket_keys_per_event ≡ few
      → HasTickets (
          if few
          then record event {
            entities = push_all event.entities (map ticket_ref (ticket_keys event));
          }
          else event)
  pushed-HasTickets true event known =
      λ few. push_all-Carries event.entities (map ticket_ref (ticket_keys event))
  pushed-HasTickets false event known = λ few. absurd (false≢true (sym known ∙ few))

  pub with_tickets-HasTickets :
      (event : ActivityEvent V) → HasTickets (with_tickets (ticket_keys event) event)
  with_tickets-HasTickets event = pushed-HasTickets _ event refl

  pub more-HasTickets :
      (opens : Bool) (event : ActivityEvent V) (refs : List EntityRef)
      → HasTickets event
      → HasTickets
          (if opens then record event { entities = push_all event.entities refs } else event)
  more-HasTickets true event refs has = λ few.
      push_all-Carries_more event.entities refs (map ticket_ref (ticket_keys event)) (has few)
  more-HasTickets false event refs has = has

  pub pushed-HasPrs :
      (opens : Bool) (event : ActivityEvent V)
      → opens_or_merges event.kind ≡ opens
      → HasPrs (
          if opens
          then record event { entities = push_all event.entities (map pr_ref (github_prs event)) }
          else event)
  pushed-HasPrs true event known =
      λ opens. push_all-Carries event.entities (map pr_ref (github_prs event))
  pushed-HasPrs false event known = λ opens. absurd (false≢true (sym known ∙ opens))

  -- The two passes that set a parent change nothing else.
  with_winner-reparented :
      (c : Option MrCandidate) (event : ActivityEvent V)
      → with_winner c event ≡ reparented (with_winner c event).parent_external_id event
  with_winner-reparented none event = refl
  with_winner-reparented (some c) event = refl

  with_issue-reparented :
      (pools : Text → List MrCandidate) (issue : Option EntityRef) (event : ActivityEvent V)
      → with_issue pools issue event
        ≡ reparented (with_issue pools issue event).parent_external_id event
  with_issue-reparented pools none event = refl
  with_issue-reparented pools (some issue) event = with_winner-reparented _ event

  pub annotate_one-reparented :
      (pools : Text → List MrCandidate) (event : ActivityEvent V)
      → annotate_one pools event ≡ reparented (annotate_one pools event).parent_external_id event
  annotate_one-reparented pools event = elim (Bool-cases (is_transition event.kind)) [
    | inl moves ↦ rw moves (with_issue-reparented pools _ event)
    | inr other ↦ rw other refl
  ]

  with_parent-reparented :
      (mr : Option Text) (event : ActivityEvent V)
      → with_parent mr event ≡ reparented (with_parent mr event).parent_external_id event
  with_parent-reparented none event = refl
  with_parent-reparented (some mr) event = refl

  pub tagged-reparented :
      (mrs : List MergeRequestArtifact) (event : ActivityEvent V)
      → tagged mrs event ≡ reparented (tagged mrs event).parent_external_id event
  unfolding tagged
  tagged-reparented mrs event =
      elim (Bool-cases
        (is_commit_authored event.kind && not (has_parent event.parent_external_id))) [
          | inl free ↦ rw free (with_parent-reparented (first_mr event.external_id mrs) event)
          | inr other ↦ rw other refl
        ]

  -- The pass finds the same parent for a transition that has it.
  with_winner-again :
      (c : Option MrCandidate) (event : ActivityEvent V)
      → with_winner c (reparented (with_winner c event).parent_external_id event)
        ≡ with_winner c event
  with_winner-again none event = refl
  with_winner-again (some c) event = refl

  pub with_issue-again :
      (pools : Text → List MrCandidate) (issue : Option EntityRef) (event : ActivityEvent V)
      → with_issue pools issue (reparented (with_issue pools issue event).parent_external_id event)
        ≡ with_issue pools issue event
  with_issue-again pools none event = refl
  with_issue-again pools (some issue) event = with_winner-again _ event
