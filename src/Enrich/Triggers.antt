-- ===== src/Enrich/Triggers.antt =====
-- What `annotate_transition_with_mr` gives each event, told without its index and its search.
use mathlib.Core.Path.{subst}
use dayseam.Prelude.{
  ◌≡◌, ◌≢◌, ◌⊎◌, refl, sym, arith, true, false, List, [], ◌∷◌, ◌++◌, Option, none, some, find, map,
  filter, Every, Bool-cases, inl, inr, if◌then◌else◌, ◌==◌,
}
use dayseam.Text.{Text, text_eq}
use dayseam.Activity.{
  ActivityEvent, ActivityKind, EntityKind, EntityRef, entity_kind_eq, mr_opened, mr_merged,
  git_hub_pull_request_opened, git_hub_pull_request_merged, git_hub_pull_request_closed,
  jira_issue_transitioned,
}
use dayseam.Enrich.Links.{
  MrCandidate, is_mr_like, is_transition, in_window, least, least_from, with_winner, with_issue,
  annotate_one, annotate_transition_with_mr,
}
use dayseam.Enrich.Windows.{named_in, naming, annotate_transition_with_mr-scan}
use dayseam.Enrich.Least.{
  filter-nil, IsAmong, IsBefore, IsRecent, IsAside, least_from_lem, filter-IsAmong, filter-Every,
}

-- A merge request or pull request that is opened, merged or, on GitHub, closed.
abbrev pub IsRequest : ActivityKind → Type 0
IsRequest k =
    (k ≡ mr_opened)
    ⊎ ((k ≡ mr_merged)
        ⊎ ((k ≡ git_hub_pull_request_opened)
            ⊎ ((k ≡ git_hub_pull_request_merged) ⊎ (k ≡ git_hub_pull_request_closed))))

abbrev pub IsOther : ActivityKind → Type 0
IsOther k =
    (k ≢ mr_opened)
    × (k ≢ mr_merged)
    × (k ≢ git_hub_pull_request_opened)
    × (k ≢ git_hub_pull_request_merged)
    × (k ≢ git_hub_pull_request_closed)

is_mr_like_lem :
    (k : ActivityKind)
    → ((is_mr_like k ≡ true) × IsRequest k) ⊎ ((is_mr_like k ≡ false) × IsOther k)
is_mr_like_lem mr_opened = inl (refl, inl refl)
is_mr_like_lem mr_merged = inl (refl, inr (inl refl))
is_mr_like_lem git_hub_pull_request_opened = inl (refl, inr (inr (inl refl)))
is_mr_like_lem git_hub_pull_request_merged = inl (refl, inr (inr (inr (inl refl))))
is_mr_like_lem git_hub_pull_request_closed = inl (refl, inr (inr (inr (inr refl))))
is_mr_like_lem _ = inr (refl, ground arith)

is_transition_lem :
    (k : ActivityKind)
    → ((is_transition k ≡ true) × (k ≡ jira_issue_transitioned))
      ⊎ ((is_transition k ≡ false) × (k ≢ jira_issue_transitioned))
is_transition_lem jira_issue_transitioned = inl (refl, refl)
is_transition_lem _ = inr (refl, ground arith)

-- The key of the first issue that is named.
abbrev pub first_issue : List EntityRef → Option Text
first_issue [] = none
first_issue (ent ∷ entities) =
    if ent.kind == EntityKind.jira_issue then some ent.external_id else first_issue entities

abbrev keyed : Option EntityRef → Option Text
keyed none = none
keyed (some ent) = some ent.external_id

keyed-find :
    (entities : List EntityRef)
    → keyed (find (λ e. e.kind == EntityKind.jira_issue) entities) ≡ first_issue entities
keyed-find [] = refl
keyed-find (ent ∷ entities) = elim (Bool-cases (ent.kind == EntityKind.jira_issue)) [
  | inl issue ↦ rw issue refl
  | inr other ↦ rw other (keyed-find entities)
]

module _ {V : Type 0} where
  -- The requests of the day that name the issue, in their order.
  abbrev pub IsPool : Text → List (ActivityEvent V) → List MrCandidate → Type 0
  IsPool key [] pool = pool ≡ []
  IsPool key (event ∷ events) pool =
      (rest : List MrCandidate) × IsPool key events rest
      × ((IsRequest event.kind
            × (pool
                ≡ named_in key
                    (record {
                      occurred_at = event.occurred_at;
                      id = event.id;
                      external_id = event.external_id;
                    })
                    event.entities
                  ++ rest))
          ⊎ (IsOther event.kind × (pool ≡ rest)))

  naming-IsPool :
      (key : Text) (events : List (ActivityEvent V)) → IsPool key events (naming events key)
  naming-IsPool key [] = refl
  naming-IsPool key (event ∷ events) = (
    naming events key,
    naming-IsPool key events,
    elim (is_mr_like_lem event.kind) [
      | inl (likes, request) ↦ inl (request, rw likes refl)
      | inr (unlike, other) ↦ inr (other, rw unlike refl)
    ],
  )

  -- Of the pool, the first in the day up to the transition, or none if none stands there.
  abbrev pub Chosen : List MrCandidate → ActivityEvent V → ActivityEvent V → Type 0
  Chosen pool event out =
      ((c : MrCandidate) × IsAmong c pool
        × IsRecent event.occurred_at c
        × Every (λ d. IsAside event.occurred_at d ⊎ IsBefore c d) pool
        × (out ≡ record event { parent_external_id = some c.external_id }))
      ⊎ (Every (IsAside event.occurred_at) pool × (out ≡ event))

  -- What an event of the day comes out as.
  abbrev pub Linked : List (ActivityEvent V) → ActivityEvent V → ActivityEvent V → Type 0
  Linked events event out =
      ((event.kind ≢ jira_issue_transitioned) × (out ≡ event))
      ⊎ ((event.kind ≡ jira_issue_transitioned)
          × (((first_issue event.entities ≡ none) × (out ≡ event))
              ⊎ ((key : Text) × (pool : List MrCandidate) × (first_issue event.entities ≡ some key)
                  × IsPool key events pool
                  × Chosen pool event out)))

  abbrev pub AllLinked :
      List (ActivityEvent V) → List (ActivityEvent V) → List (ActivityEvent V) → Type 0
  AllLinked events [] [] = Unit
  AllLinked events [] (o ∷ out) = ⊥
  AllLinked events (e ∷ es) [] = ⊥
  AllLinked events (e ∷ es) (o ∷ out) = Linked events e o × AllLinked events es out

  with_winner-Chosen :
      (pool kept : List MrCandidate) (event : ActivityEvent V)
      → filter (in_window event.occurred_at) pool ≡ kept
      → Chosen pool event (with_winner (least kept) event)
  with_winner-Chosen pool [] event same = inr (filter-nil event.occurred_at pool same, refl)
  with_winner-Chosen pool (c ∷ kept) event same =
      let (among, first) = least_from_lem c kept in
      let winner = least_from c kept in
      let (stands, recent) =
        filter-IsAmong event.occurred_at winner pool (subst (IsAmong winner) (sym same) among) in
      inl (
        winner,
        stands,
        recent,
        filter-Every event.occurred_at (IsBefore winner) pool
            (subst (Every (IsBefore winner)) (sym same) first),
        refl,
      )

  with_issue-Linked :
      (events : List (ActivityEvent V)) (event : ActivityEvent V) (issue : Option EntityRef)
      → event.kind ≡ jira_issue_transitioned
      → keyed issue ≡ first_issue event.entities
      → Linked events event (with_issue (naming events) issue event)
  with_issue-Linked events event none moves known = inr (moves, inl (sym known, refl))
  with_issue-Linked events event (some issue) moves known = inr (
    moves,
    inr (
      issue.external_id,
      naming events issue.external_id,
      sym known,
      naming-IsPool issue.external_id events,
      with_winner-Chosen (naming events issue.external_id) _ event refl,
    ),
  )

  annotate_one-Linked :
      (events : List (ActivityEvent V)) (event : ActivityEvent V)
      → Linked events event (annotate_one (naming events) event)
  annotate_one-Linked events event = elim (is_transition_lem event.kind) [
    | inl (tests, moves) ↦ subst (Linked events event) (sym (rw tests refl)) (
        with_issue-Linked events event (find (λ e. e.kind == EntityKind.jira_issue) event.entities)
          moves (keyed-find event.entities))
    | inr (tests, stays) ↦ inl (stays, rw tests refl)
  ]

  all-Linked :
      (events es : List (ActivityEvent V))
      → AllLinked events es (map (annotate_one (naming events)) es)
  all-Linked events [] = tt
  all-Linked events (event ∷ es) = (annotate_one-Linked events event, all-Linked events es)

  -- Every event but a Jira transition comes out as it was, and so does a transition that names no issue.
  -- The parent of any other transition becomes, of the merge requests and pull requests of the day that
  -- name its first issue and stand in the 24 hours up to it, both ends included, the earliest, among
  -- those of one instant the one of the smallest identifier; without one it stays as it was.
  pub annotate_transition_with_mr-AllLinked :
      (events : List (ActivityEvent V))
      → AllLinked events events (annotate_transition_with_mr events)
  annotate_transition_with_mr-AllLinked events =
      subst (AllLinked events events) (sym (annotate_transition_with_mr-scan events))
        (all-Linked events events)
