-- ===== src/Rollup/Kept.antt =====
-- No event of the day is lost on the way through `roll_up`.
use dayseam.Prelude.{
  ℕ, ◌≡◌, ◌⊎◌, refl, ◌∙◌, ap, arith, Bool, true, false, List, [], ◌∷◌, ◌++◌, Option, none, some,
  ◌==◌, nat_eq, nat_eqb_iff, any-append, if◌then◌else◌, Bool-cases, inl, inr, ltb,
}
use dayseam.Prelude.Maps.{lookup, remove, place, lookup-remove, lookup-place}
use dayseam.Text.{Text, text_eq, text_eqb_iff}
use dayseam.Activity.{ActivityEvent}
use dayseam.Rollup.{OrphanKey, orphan_key}
use dayseam.Rollup.Groups.{Artifact, Outside, event_ids}
use dayseam.Rollup.Synthesis.{orphan_key_eq, orphan_cmp, is_before, unwrap_or}
use dayseam.Rollup.Stages.{
  sort_groups, group_cmp, event_by_id, claim, claim_all, put_first, bucket, synthesize_all,
  group_all, roll_up, merge_duplicate_commit_sets,
}
use dayseam.Rollup.Told.{tells, mentions, tells-sort_events, any-sort_by, or_true}
use dayseam.Rollup.Merge.{IsApart, merge_duplicate_commit_sets-mentions}

module _ {V : Type 0} where
  -- The last event of an identifier.
  abbrev pub later_of :
      Option (ActivityEvent V) → Option (ActivityEvent V) → Option (ActivityEvent V)
  later_of none further = further
  later_of (some event) further = some event

  abbrev pub last_event : ℕ → List (ActivityEvent V) → Option (ActivityEvent V)
  last_event id [] = none
  last_event id (event ∷ events) =
      later_of (last_event id events) (if event.id == id then some event else none)

  later_of_assoc :
      (a b c : Option (ActivityEvent V)) → later_of a (later_of b c) ≡ later_of (later_of a b) c
  later_of_assoc none b c = refl
  later_of_assoc (some a) b c = refl

  later-if :
      (b : Bool) (event : ActivityEvent V) (further : Option (ActivityEvent V))
      → (if b then some event else further) ≡ later_of (if b then some event else none) further
  later-if true event further = refl
  later-if false event further = refl

  lookup-event_by_id :
      (id : ℕ) (events : List (ActivityEvent V)) (by_id : List (ℕ × ActivityEvent V))
      → lookup id (event_by_id events by_id) ≡ later_of (last_event id events) (lookup id by_id)
  unfolding event_by_id
  lookup-event_by_id id [] by_id = refl
  lookup-event_by_id id (event ∷ events) by_id =
      lookup-event_by_id id events (place ltb event.id event by_id)
      ∙ ap (later_of (last_event id events)) (
          lookup-place ltb event.id id event by_id
          ∙ later-if (event.id == id) event (lookup id by_id))
      ∙ later_of_assoc (last_event id events) (if event.id == id then some event else none)
          (lookup id by_id)

  claim-tells :
      (id : ℕ) (event : ActivityEvent V) (ids : List ℕ) (by_id : List (ℕ × ActivityEvent V))
      → lookup id by_id ≡ some event
      → (tells event.external_id (claim ids by_id).0 ≡ true)
        ⊎ (lookup id (claim ids by_id).1 ≡ some event)
  unfolding claim
  claim-tells id event [] by_id held = inr held
  claim-tells id event (first ∷ ids) by_id held = elim (Bool-cases (first == id)) [
    | inl same ↦
        let one : lookup first by_id ≡ some event =
          ap (λ x. lookup x by_id) ((nat_eqb_iff first id).0 same) ∙ held in
        inl (rw one (rw ((text_eqb_iff event.external_id event.external_id).1 refl) refl))
    | inr apart ↦
        let rest =
          claim-tells id event ids (remove first by_id)
            (lookup-remove first id by_id ∙ rw apart held) in
        put-tells (lookup first by_id) rest
  ]
    where
      put-tells :
          (found : Option (ActivityEvent V))
          → (tells event.external_id (claim ids (remove first by_id)).0 ≡ true)
            ⊎ (lookup id (claim ids (remove first by_id)).1 ≡ some event)
          → (tells event.external_id (put_first found (claim ids (remove first by_id))).0 ≡ true)
            ⊎ (lookup id (put_first found (claim ids (remove first by_id))).1 ≡ some event)
      put-tells none rest = rest
      put-tells (some other) (inl told) = inl (ground (arith, told))
      put-tells (some other) (inr further) = inr further

  claim_all-mentions :
      (id : ℕ) (event : ActivityEvent V) (artifacts : List Artifact)
      (by_id : List (ℕ × ActivityEvent V))
      → lookup id by_id ≡ some event
      → (mentions event.external_id (claim_all artifacts by_id).0 ≡ true)
        ⊎ (lookup id (claim_all artifacts by_id).1 ≡ some event)
  unfolding claim_all
  claim_all-mentions id event [] by_id held = inr held
  claim_all-mentions id event (artifact ∷ artifacts) by_id held =
      elim (claim-tells id event (event_ids artifact.payload) by_id held) [
        | inl told ↦ inl (
            rw
              (
                tells-sort_events event.external_id (claim (event_ids artifact.payload) by_id).0,
                told,
              )
              refl)
        | inr further ↦
            elim (claim_all-mentions id event artifacts (claim (event_ids artifact.payload) by_id).1
              further) [ inl told ↦ inl (ground (arith, told)) | inr orphan ↦ inr orphan ]
      ]

  -- Whether some bucket tells of a record.
  abbrev Bucketed : Text → List (OrphanKey × List (ActivityEvent V)) → Type 0
  Bucketed sought by_key =
      (key : OrphanKey) × (events : List (ActivityEvent V)) × (lookup key by_key ≡ some events)
      × (tells sought events ≡ true)

  tells-last :
      (event : ActivityEvent V) (events : List (ActivityEvent V))
      → tells event.external_id (events ++ (event ∷ [])) ≡ true
  tells-last event events =
      any-append (λ e. e.external_id == event.external_id) events (event ∷ [])
      ∙ ground (arith, text_eqb_iff event.external_id event.external_id)

  push-Bucketed :
      (before : OrphanKey → OrphanKey → Bool) (sought : Text) (key : OrphanKey)
      (event : ActivityEvent V) (by_key : List (OrphanKey × List (ActivityEvent V)))
      → Bucketed sought by_key
      → Bucketed sought (place before key (unwrap_or (lookup key by_key) [] ++ (event ∷ [])) by_key)
  push-Bucketed before sought key event by_key (other, events, at, told) =
      let value = unwrap_or (lookup key by_key) [] ++ (event ∷ []) in
      elim (Bool-cases (key == other)) [
        | inl same ↦
            let one : lookup key by_key ≡ some events =
              ap (λ x. lookup x by_key) ((orphan_key_eq.beq_iff key other).0 same) ∙ at in
            (
              other,
              value,
              lookup-place before key other value by_key ∙ rw same refl,
              any-append (λ e. e.external_id == sought) (unwrap_or (lookup key by_key) [])
                    (event ∷ [])
                  ∙ rw (one, told) refl,
            )
        | inr apart ↦
            (other, events, lookup-place before key other value by_key ∙ rw apart at, told)
      ]

  new-Bucketed :
      (before : OrphanKey → OrphanKey → Bool) (sought : Text) (key : OrphanKey)
      (value : List (ActivityEvent V)) (by_key : List (OrphanKey × List (ActivityEvent V)))
      → tells sought value ≡ true
      → Bucketed sought (place before key value by_key)
  new-Bucketed before sought key value by_key told = (
    key,
    value,
    lookup-place before key key value by_key ∙ rw ((orphan_key_eq.beq_iff key key).1 refl) refl,
    told,
  )

module _ {V : Type 0} (std : Outside V) where
  bucket_keeps :
      (sought : Text) (orphans : List (ℕ × ActivityEvent V))
      (by_key : List (OrphanKey × List (ActivityEvent V)))
      → Bucketed sought by_key
      → Bucketed sought (bucket std orphans by_key)
  unfolding bucket
  bucket_keeps sought [] by_key kept = kept
  bucket_keeps sought ((id, event) ∷ orphans) by_key kept = bucket_keeps sought orphans _ (
      push-Bucketed (λ a b. is_before (orphan_cmp std.path_before a b)) sought
        (orphan_key std.day_of event) event by_key kept)

  bucket_adds :
      (id : ℕ) (event : ActivityEvent V) (orphans : List (ℕ × ActivityEvent V))
      (by_key : List (OrphanKey × List (ActivityEvent V)))
      → lookup id orphans ≡ some event
      → Bucketed event.external_id (bucket std orphans by_key)
  unfolding bucket lookup
  bucket_adds id event [] by_key held = ground (arith, held)
  bucket_adds id event ((other, orphan) ∷ orphans) by_key held = elim (Bool-cases (other == id)) [
    | inl same ↦
        let one : orphan ≡ event = ground (arith, same, held) in
        bucket_keeps event.external_id orphans _ (
          new-Bucketed (λ a b. is_before (orphan_cmp std.path_before a b)) event.external_id
            (orphan_key std.day_of orphan) _ by_key
            (rw one
              (tells-last event (unwrap_or (lookup (orphan_key std.day_of event) by_key) []))))
    | inr apart ↦ bucket_adds id event orphans _ (ground (arith, apart, held))
  ]

  synthesize_all-mentions :
      (sought : Text) (report_date : ℕ) (buckets : List (OrphanKey × List (ActivityEvent V)))
      (key : OrphanKey) (events : List (ActivityEvent V))
      → lookup key buckets ≡ some events
      → tells sought events ≡ true
      → mentions sought (synthesize_all std report_date buckets) ≡ true
  unfolding synthesize_all lookup
  synthesize_all-mentions sought report_date [] key events at told = ground (arith, at)
  synthesize_all-mentions sought report_date ((other, held) ∷ buckets) key events at told =
      elim (Bool-cases (other == key)) [
        | inl same ↦
            let one : held ≡ events = ground (arith, same, at) in
            rw (tells-sort_events sought held, one, told) refl
        | inr apart ↦
            let rest =
              synthesize_all-mentions sought report_date buckets key events
                (ground (arith, apart, at)) told in
            ground (arith, rest)
      ]

  group_all-mentions :
      (id : ℕ) (event : ActivityEvent V) (events : List (ActivityEvent V))
      (artifacts : List Artifact) (report_date : ℕ)
      → last_event id events ≡ some event
      → mentions event.external_id (group_all std events artifacts report_date) ≡ true
  unfolding group_all lookup
  group_all-mentions id event events artifacts report_date is =
      let by_id = event_by_id events [] in
      let claimed = claim_all artifacts by_id in
      let held = lookup-event_by_id id events [] ∙ ap (λ o. later_of o none) is in
      any-append (λ group. tells event.external_id group.events) claimed.0
        (synthesize_all std report_date (bucket std claimed.1 []))
      ∙ elim (claim_all-mentions id event artifacts by_id held) [
        | inl told ↦ rw told refl
        | inr orphan ↦
            let (key, bucketed, at, told) = bucket_adds id event claimed.1 [] orphan in
            rw
              (synthesize_all-mentions event.external_id report_date (bucket std claimed.1 []) key
                bucketed at told)
              (or_true (mentions event.external_id claimed.0))
      ]

  -- For each identifier, the last event of the day that has it is not lost on the way through
  -- `roll_up`: some group has an event with its external identifier, whether or not an artifact claims
  -- the event. It is assumed that of the groups before the merge, none that is no commit set comes
  -- after a group with the same key.
  pub roll_up-mentions :
      (id : ℕ) (event : ActivityEvent V) (events : List (ActivityEvent V))
      (artifacts : List Artifact) (report_date : ℕ)
      → last_event id events ≡ some event
      → IsApart std [] (group_all std events artifacts report_date)
      → mentions event.external_id (roll_up std events artifacts report_date) ≡ true
  unfolding roll_up sort_groups
  roll_up-mentions id event events artifacts report_date is apart =
      let groups = group_all std events artifacts report_date in
      any-sort_by (λ group. tells event.external_id group.events) group_cmp
        (merge_duplicate_commit_sets std groups)
      ∙ merge_duplicate_commit_sets-mentions std event.external_id groups apart
          (group_all-mentions id event events artifacts report_date is)
