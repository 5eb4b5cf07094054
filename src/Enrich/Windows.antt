-- ===== src/Enrich/Windows.antt =====
-- The index from issues to merge requests against a scan of the day for each transition.
use dayseam.Prelude.{
  ◌≡◌, refl, sym, ◌∙◌, ap, ◌&&◌, List, [], ◌∷◌, ◌++◌, append-nil, append_assoc, Option, none, some,
  ◌==◌, map, if◌then◌else◌, Bool-cases, inl, inr,
}
use dayseam.Prelude.Maps.{lookup, insert, lookup-insert}
use dayseam.Text.{Text, text_eq, text_eqb_iff}
use dayseam.Activity.{ActivityEvent, EntityKind, EntityRef, entity_kind_eq}
use dayseam.Enrich.Links.{
  MrCandidate, pool_of, candidate, is_mr_like, is_transition, index_entities, index_events,
  build_issue_to_mr_candidates, with_issue, annotate_one, annotate_all, annotate_transition_with_mr,
}

abbrev pub named_in : Text → MrCandidate → List EntityRef → List MrCandidate
named_in key c [] = []
named_in key c (ent ∷ entities) =
    let rest = named_in key c entities in
    if ent.kind == EntityKind.jira_issue && ent.external_id == key then c ∷ rest else rest

pushed :
    (out : List (Text × List MrCandidate)) (key sought : Text) (c : MrCandidate)
    → pool_of (lookup sought (insert key (pool_of (lookup key out) ++ (c ∷ [])) out))
      ≡ pool_of (lookup sought out) ++ (if key == sought then c ∷ [] else [])
pushed out key sought c = elim (Bool-cases (key == sought)) [
  | inl same ↦
      ap pool_of (lookup-insert key sought (pool_of (lookup key out) ++ (c ∷ [])) out)
      ∙ rw (same, (text_eqb_iff key sought).0 same) refl
  | inr apart ↦
      ap pool_of (lookup-insert key sought (pool_of (lookup key out) ++ (c ∷ [])) out)
      ∙ rw apart (sym (append-nil (pool_of (lookup sought out))))
]

pool-index_entities :
    (key : Text) (c : MrCandidate) (entities : List EntityRef)
    (out : List (Text × List MrCandidate))
    → pool_of (lookup key (index_entities c entities out))
      ≡ pool_of (lookup key out) ++ named_in key c entities
unfolding index_entities
pool-index_entities key c [] out = sym (append-nil (pool_of (lookup key out)))
pool-index_entities key c (ent ∷ entities) out =
    elim (Bool-cases (ent.kind == EntityKind.jira_issue)) [
      | inr other ↦ rw other (pool-index_entities key c entities out)
      | inl issue ↦ rw issue (
          pool-index_entities key c entities _
          ∙ ap (λ pool. pool ++ named_in key c entities) (pushed out ent.external_id key c)
          ∙ elim (Bool-cases (ent.external_id == key)) [
            | inl same ↦
                rw same (append_assoc (pool_of (lookup key out)) (c ∷ []) (named_in key c entities))
            | inr apart ↦ rw (apart, append-nil (pool_of (lookup key out))) refl
          ])
    ]

module _ {V : Type 0} where
  -- The merge requests and pull requests of the day that name an issue.
  abbrev pub of_event : Text → ActivityEvent V → List MrCandidate
  of_event key event =
      if is_mr_like event.kind then named_in key (candidate event) event.entities else []

  abbrev pub naming : List (ActivityEvent V) → Text → List MrCandidate
  naming [] key = []
  naming (event ∷ events) key = of_event key event ++ naming events key

  pool-index_events :
      (key : Text) (events : List (ActivityEvent V)) (out : List (Text × List MrCandidate))
      → pool_of (lookup key (index_events events out))
        ≡ pool_of (lookup key out) ++ naming events key
  unfolding index_events
  pool-index_events key [] out = sym (append-nil (pool_of (lookup key out)))
  pool-index_events key (event ∷ events) out = elim (Bool-cases (is_mr_like event.kind)) [
    | inr other ↦ rw other (pool-index_events key events out)
    | inl mr ↦ rw mr (
        pool-index_events key events (index_entities (candidate event) event.entities out)
        ∙ ap (λ pool. pool ++ naming events key)
            (pool-index_entities key (candidate event) event.entities out)
        ∙ append_assoc (pool_of (lookup key out)) (named_in key (candidate event) event.entities)
            (naming events key))
  ]

  same-with_issue :
      (pools others : Text → List MrCandidate) (event : ActivityEvent V) (issue : Option EntityRef)
      → ((key : Text) → pools key ≡ others key)
      → with_issue pools issue event ≡ with_issue others issue event
  same-with_issue pools others event none same = refl
  same-with_issue pools others event (some issue) same = rw (same issue.external_id) refl

  same-annotate_one :
      (pools others : Text → List MrCandidate) (event : ActivityEvent V)
      → ((key : Text) → pools key ≡ others key)
      → annotate_one pools event ≡ annotate_one others event
  same-annotate_one pools others event same = elim (Bool-cases (is_transition event.kind)) [
    | inl moves ↦ rw moves (same-with_issue pools others event _ same)
    | inr other ↦ rw other refl
  ]

  pub same-map :
      (pools others : Text → List MrCandidate) (events : List (ActivityEvent V))
      → ((key : Text) → pools key ≡ others key)
      → map (annotate_one pools) events ≡ map (annotate_one others) events
  same-map pools others [] same = refl
  same-map pools others (event ∷ events) same =
      rw (same-annotate_one pools others event same, same-map pools others events same) refl

  empty-with_issue :
      (event : ActivityEvent V) (issue : Option EntityRef)
      → with_issue (λ key. []) issue event ≡ event
  empty-with_issue event none = refl
  empty-with_issue event (some issue) = refl

  empty-annotate_one : (event : ActivityEvent V) → annotate_one (λ key. []) event ≡ event
  empty-annotate_one event = elim (Bool-cases (is_transition event.kind)) [
    | inl moves ↦ rw moves (empty-with_issue event _)
    | inr other ↦ rw other refl
  ]

  empty-map : (events : List (ActivityEvent V)) → map (annotate_one (λ key. [])) events ≡ events
  empty-map [] = refl
  empty-map (event ∷ events) = rw (empty-annotate_one event, empty-map events) refl

  all-map :
      (candidates : List (Text × List MrCandidate)) (events : List (ActivityEvent V))
      → annotate_all candidates events
        ≡ map (annotate_one (λ key. pool_of (lookup key candidates))) events
  unfolding lookup
  all-map [] events = sym (empty-map events)
  all-map (entry ∷ candidates) events = refl

  -- The index gives each Jira transition what a scan of the whole day would: of the merge requests and
  -- pull requests, opened, merged or closed, that name its first issue and stand in the 24 hours up to
  -- it, its parent is the earliest, by time and then identifier; with none the transition stays as it
  -- is, and so does every other event.
  pub annotate_transition_with_mr-scan :
      (events : List (ActivityEvent V))
      → annotate_transition_with_mr events ≡ map (annotate_one (naming events)) events
  unfolding lookup
  annotate_transition_with_mr-scan events =
      all-map (build_issue_to_mr_candidates events) events
      ∙ same-map _ (naming events) events (λ key. pool-index_events key events [])
