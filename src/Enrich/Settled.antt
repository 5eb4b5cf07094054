-- ===== src/Enrich/Settled.antt =====
-- That a second run of the pipeline changes nothing.
use mathlib.Core.Path.{subst}
use dayseam.Prelude.{
  ◌≡◌, refl, sym, ◌∙◌, ap, arith, true, false, List, [], ◌∷◌, ◌++◌, Option, some, any, map,
  Bool-cases, inl, inr,
}
use dayseam.Text.{Text, text_eq}
use dayseam.Activity.{ActivityEvent, ActivityKind, is_commit_authored, jira_issue_transitioned}
use dayseam.Dedup.Reference.{is_commit, commits, absorb_all}
use dayseam.Dedup.Refines.{dedup_commit_authored-absorb_all}
use dayseam.Dedup.Shas.{IsDistinct, absorb_all-IsDistinct, absorb_all-IsDistinct_self}
use dayseam.Report.{MergeRequestArtifact, annotate_rolled_into_mr}
use dayseam.Report.Tagging.{tagged, annotate_rolled_into_mr-tagged, map-tagged_idem}
use dayseam.Enrich.{ticket_keys, with_tickets, extract_ticket_keys}
use dayseam.Enrich.Links.{
  MrCandidate, annotate_one, annotate_transition_with_mr, extract_github_pr_urls, is_transition,
  opens_or_merges, with_prs, github_prs, pr_ref, pipeline, pipeline_after,
}
use dayseam.Enrich.Windows.{naming, of_event, same-map, annotate_transition_with_mr-scan}
use dayseam.Enrich.Passes.{bare, bare-with_tickets, bare-with_prs, bare-annotate_one, bare-tagged}
use dayseam.Enrich.Again.{
  reparented, HasTickets, HasPrs, with_tickets-still, with_prs-still, with_tickets-HasTickets,
  more-HasTickets, pushed-HasPrs, annotate_one-reparented, tagged-reparented, with_issue-again,
}

commit_is_no_transition : (k : ActivityKind) → is_transition k ≡ true → is_commit_authored k ≡ false
unfolding is_commit_authored
commit_is_no_transition jira_issue_transitioned moves = refl
commit_is_no_transition _ moves = ground (arith, moves)

module _ {V : Type 0} where
  abbrev pub ticketed : ActivityEvent V → ActivityEvent V
  ticketed event = with_tickets (ticket_keys event) event

  any-commits-map :
      (f : ActivityEvent V → ActivityEvent V)
      → ((event : ActivityEvent V) → bare (f event) ≡ bare event)
      → (sha : Text) (events : List (ActivityEvent V))
      → any (commits sha) (map f events) ≡ any (commits sha) events
  any-commits-map f keeps sha [] = refl
  any-commits-map f keeps sha (event ∷ events) =
      rw (ap (commits sha) (keeps event), any-commits-map f keeps sha events) refl

  map-IsDistinct :
      (f : ActivityEvent V → ActivityEvent V)
      → ((event : ActivityEvent V) → bare (f event) ≡ bare event)
      → (events : List (ActivityEvent V)) → IsDistinct events
      → IsDistinct (map f events)
  map-IsDistinct f keeps [] distinct = tt
  map-IsDistinct f keeps (event ∷ events) distinct = (
    rw
        (
          ap is_commit (keeps event),
          ap (λ e. e.external_id) (keeps event),
          any-commits-map f keeps event.external_id events,
        )
        distinct.0,
    map-IsDistinct f keeps events distinct.1,
  )

  naming-reparented :
      (f : ActivityEvent V → ActivityEvent V)
      → ((event : ActivityEvent V) → f event ≡ reparented (f event).parent_external_id event)
      → (events : List (ActivityEvent V)) (key : Text)
      → naming (map f events) key ≡ naming events key
  naming-reparented f sets [] key = refl
  naming-reparented f sets (event ∷ events) key =
      ap (λ pool. pool ++ naming (map f events) key) (ap (of_event key) (sets event))
      ∙ ap (λ pool. of_event key event ++ pool) (naming-reparented f sets events key)

  tagged-transition :
      (mrs : List MergeRequestArtifact) (event : ActivityEvent V)
      → is_transition event.kind ≡ true
      → tagged mrs event ≡ event
  unfolding tagged
  tagged-transition mrs event moves = rw (commit_is_no_transition event.kind moves) refl

  -- An event behind the first three passes, and behind all of them.
  abbrev linked : ActivityEvent V → ActivityEvent V
  linked event = with_prs (ticketed event)

  abbrev finished :
      (Text → List MrCandidate) → List MergeRequestArtifact → ActivityEvent V → ActivityEvent V
  finished pools mrs event = tagged mrs (annotate_one pools (linked event))

  finished-linked :
      (P : ActivityEvent V → Type 0)
      → ((parent : Option Text) (event : ActivityEvent V) → P event → P (reparented parent event))
      → (pools : Text → List MrCandidate) (mrs : List MergeRequestArtifact)
        (event : ActivityEvent V)
      → P (linked event)
      → P (finished pools mrs event)
  finished-linked P keeps pools mrs event holds =
      subst P (sym (tagged-reparented mrs (annotate_one pools (linked event))))
        (keeps _ _ (subst P (sym (annotate_one-reparented pools (linked event))) (keeps _ _ holds)))

  finished-HasTickets :
      (pools : Text → List MrCandidate) (mrs : List MergeRequestArtifact) (event : ActivityEvent V)
      → HasTickets (finished pools mrs event)
  finished-HasTickets pools mrs event =
      finished-linked HasTickets (λ parent event has. has) pools mrs event
        (more-HasTickets (opens_or_merges (ticketed event).kind) (ticketed event)
          (map pr_ref (github_prs (ticketed event))) (with_tickets-HasTickets event))

  finished-HasPrs :
      (pools : Text → List MrCandidate) (mrs : List MergeRequestArtifact) (event : ActivityEvent V)
      → HasPrs (finished pools mrs event)
  finished-HasPrs pools mrs event =
      finished-linked HasPrs (λ parent event has. has) pools mrs event
        (pushed-HasPrs (opens_or_merges (ticketed event).kind) (ticketed event) refl)

  reparented-annotate_one :
      (pools : Text → List MrCandidate) (event : ActivityEvent V)
      → annotate_one pools (reparented (annotate_one pools event).parent_external_id event)
        ≡ annotate_one pools event
  reparented-annotate_one pools event = elim (Bool-cases (is_transition event.kind)) [
    | inl moves ↦ rw moves (with_issue-again pools _ event)
    | inr other ↦ rw other refl
  ]

  other-annotate_one :
      (pools : Text → List MrCandidate) (event : ActivityEvent V)
      → is_transition event.kind ≡ false
      → annotate_one pools event ≡ event
  other-annotate_one pools event other = rw other refl

  annotate_one-tagged :
      (pools : Text → List MrCandidate) (mrs : List MergeRequestArtifact) (event : ActivityEvent V)
      → annotate_one pools (tagged mrs (annotate_one pools event))
        ≡ tagged mrs (annotate_one pools event)
  annotate_one-tagged pools mrs event =
      let sets = annotate_one-reparented pools event in
      let kind = ap (λ e. is_transition e.kind) sets in
      elim (Bool-cases (is_transition event.kind)) [
        | inl moves ↦
            let still = tagged-transition mrs (annotate_one pools event) (kind ∙ moves) in
            ap (annotate_one pools) (still ∙ sets) ∙ reparented-annotate_one pools event ∙ sym still
        | inr other ↦ other-annotate_one pools (tagged mrs (annotate_one pools event)) (
            ap (λ e. is_transition e.kind) (tagged-reparented mrs (annotate_one pools event))
            ∙ kind
            ∙ other)
      ]

  abbrev all_finished :
      (Text → List MrCandidate)
      → List MergeRequestArtifact
      → List (ActivityEvent V)
      → List (ActivityEvent V)
  all_finished pools mrs rows =
      map (tagged mrs) (map (annotate_one pools) (map with_prs (map ticketed rows)))

  map-still :
      (f : ActivityEvent V → ActivityEvent V) (pools : Text → List MrCandidate)
      (mrs : List MergeRequestArtifact)
      → ((event : ActivityEvent V) → f (finished pools mrs event) ≡ finished pools mrs event)
      → (rows : List (ActivityEvent V))
      → map f (all_finished pools mrs rows) ≡ all_finished pools mrs rows
  map-still f pools mrs still [] = refl
  map-still f pools mrs still (event ∷ rows) =
      ap (λ e. e ∷ map f (all_finished pools mrs rows)) (still event)
      ∙ ap (λ es. finished pools mrs event ∷ es) (map-still f pools mrs still rows)

  all_finished-IsDistinct :
      (pools : Text → List MrCandidate) (mrs : List MergeRequestArtifact)
      (rows : List (ActivityEvent V))
      → IsDistinct rows
      → IsDistinct (all_finished pools mrs rows)
  all_finished-IsDistinct pools mrs rows distinct =
      map-IsDistinct (tagged mrs) (bare-tagged mrs) _ (
        map-IsDistinct (annotate_one pools) (bare-annotate_one pools) _ (
          map-IsDistinct with_prs bare-with_prs _ (
            map-IsDistinct ticketed (λ event. bare-with_tickets (ticket_keys event) event) rows
              distinct)))

  naming-all_finished :
      (pools : Text → List MrCandidate) (mrs : List MergeRequestArtifact)
      (rows : List (ActivityEvent V)) (key : Text)
      → naming (all_finished pools mrs rows) key ≡ naming (map with_prs (map ticketed rows)) key
  naming-all_finished pools mrs rows key =
      let prs = map with_prs (map ticketed rows) in
      naming-reparented (tagged mrs) (tagged-reparented mrs) (map (annotate_one pools) prs) key
      ∙ naming-reparented (annotate_one pools) (annotate_one-reparented pools) prs key

  -- The passes behind the first one leave a finished list as it is.
  passes-all_finished :
      (mrs : List MergeRequestArtifact) (rows : List (ActivityEvent V))
      → (let pools = naming (map with_prs (map ticketed rows)) in
          let out = all_finished pools mrs rows in
          annotate_rolled_into_mr
            (annotate_transition_with_mr (extract_github_pr_urls (extract_ticket_keys out)))
            mrs
          ≡ out)
  passes-all_finished mrs rows =
      let pools = naming (map with_prs (map ticketed rows)) in
      let out = all_finished pools mrs rows in
      ap
        (λ es.
          annotate_rolled_into_mr (annotate_transition_with_mr (extract_github_pr_urls es)) mrs)
        (map-still ticketed pools mrs
          (λ event.
            with_tickets-still (finished pools mrs event) (finished-HasTickets pools mrs event))
          rows)
      ∙ ap (λ es. annotate_rolled_into_mr (annotate_transition_with_mr es) mrs)
          (map-still with_prs pools mrs
            (λ event. with_prs-still (finished pools mrs event) (finished-HasPrs pools mrs event))
            rows)
      ∙ ap (λ es. annotate_rolled_into_mr es mrs)
          (annotate_transition_with_mr-scan out
            ∙ same-map (naming out) pools out (naming-all_finished pools mrs rows)
            ∙ map-still (annotate_one pools) pools mrs
                (λ event. annotate_one-tagged pools mrs (linked event)) rows)
      ∙ annotate_rolled_into_mr-tagged out mrs
      ∙ map-tagged_idem mrs (map (annotate_one pools) (map with_prs (map ticketed rows)))

  -- The pipeline is idempotent: it returns a list, and run on that list with the same merge requests it
  -- returns it again.
  pub pipeline_idem :
      (events : List (ActivityEvent V)) (mrs : List MergeRequestArtifact)
      → (out : List (ActivityEvent V)) × (pipeline events mrs ≡ some out)
        × (pipeline out mrs ≡ some out)
  unfolding pipeline
  pipeline_idem events mrs =
      let rows = absorb_all [] events in
      let prs = map with_prs (map ticketed rows) in
      let out = all_finished (naming prs) mrs rows in
      (
        out,
        ap (pipeline_after mrs) (dedup_commit_authored-absorb_all events)
            ∙ ap some (
                annotate_rolled_into_mr-tagged (annotate_transition_with_mr prs) mrs
                ∙ ap (map (tagged mrs)) (annotate_transition_with_mr-scan prs)),
        ap (pipeline_after mrs) (
              dedup_commit_authored-absorb_all out
              ∙ ap some (
                  absorb_all-IsDistinct_self out [] (
                    all_finished-IsDistinct (naming prs) mrs rows
                      (absorb_all-IsDistinct events [] tt))))
            ∙ ap some (passes-all_finished mrs rows),
      )
