-- ===== src/Rollup/Merge.antt =====
-- The merge of commit sets loses no event.
use dayseam.Prelude.{
  ℕ, ◌≡◌, refl, ◌∙◌, ap, arith, true, false, List, [], ◌∷◌, ◌++◌, Option, none, some, ◌==◌,
  contains, contains-append, Bool-cases, Option-cases, inl, inr,
}
use dayseam.Prelude.Maps.{lookup, insert, remove, lookup-insert, lookup-remove}
use dayseam.Text.{Text, text_eq}
use dayseam.Rollup.Groups.{RolledUpArtifact, Outside}
use dayseam.Rollup.Stages.{
  SetKey, set_key_eq, commit_set_key, merged_into, Merging, sentinel, add_set, add_keyed, add_group,
  add_groups, in_order, merge_duplicate_commit_sets,
}
use dayseam.Rollup.Told.{tells, mentions, merged_tells, or_true}

unseen :
    (k key : SetKey) (seen : List SetKey)
    → contains seen k ≡ false
    → contains seen key ≡ true
    → (k == key) ≡ false
unseen k key seen own covered = elim (Bool-cases (k == key)) [
  | inl same ↦
      let both = ap (contains seen) ((set_key_eq.beq_iff k key).0 same) ∙ covered in
      ground (arith, own, both)
  | inr apart ↦ apart
]

module _ {V : Type 0} (std : Outside V) where
  -- The key under which a group is kept.
  abbrev pub key_or : Option SetKey → ℕ → SetKey
  key_or none id = sentinel std id
  key_or (some key) id = key

  abbrev pub full_key : RolledUpArtifact V → SetKey
  full_key group = key_or (commit_set_key group.artifact.payload) group.artifact.id

  -- A group that is no commit set has a key that no earlier one has.
  abbrev pub OwnKey : List SetKey → SetKey → Option SetKey → Type 0
  OwnKey seen key (some k) = Unit
  OwnKey seen key none = contains seen key ≡ false

  abbrev pub IsApart : List SetKey → List (RolledUpArtifact V) → Type 0
  IsApart seen [] = Unit
  IsApart seen (group ∷ groups) =
      OwnKey seen (full_key group) (commit_set_key group.artifact.payload)
      × IsApart (full_key group ∷ seen) groups

  -- Whether a map has a key whose group tells of the record, which is still to come in the order.
  abbrev Kept : Text → Merging V → Type 0
  Kept sought s =
      (key : SetKey) × (group : RolledUpArtifact V) × (contains s.order key ≡ true)
      × (lookup key s.by_key ≡ some group)
      × (tells sought group.events ≡ true)

  abbrev IsCovered : List SetKey → Merging V → Type 0
  IsCovered seen s =
      (key : SetKey) (group : RolledUpArtifact V)
      → lookup key s.by_key ≡ some group
      → (contains seen key ≡ true) × (contains s.order key ≡ true)

  set-IsCovered :
      (seen : List SetKey) (s : Merging V) (group : RolledUpArtifact V) (k : SetKey)
      (found : Option (RolledUpArtifact V))
      → lookup k s.by_key ≡ found
      → IsCovered seen s
      → IsCovered (k ∷ seen) (add_set std s group k found)
  set-IsCovered seen s group k none is covered key held at = ground (
    arith,
    lookup-insert k key group s.by_key,
    set_key_eq.beq_iff k key,
    contains-append s.order (k ∷ []) key,
    covered key held,
  )
  set-IsCovered seen s group k (some existing) is covered key held at = ground (
    arith,
    lookup-insert k key (merged_into existing group) s.by_key,
    set_key_eq.beq_iff k key,
    covered key held,
    covered k existing is,
  )

  group-IsCovered :
      (seen : List SetKey) (s : Merging V) (group : RolledUpArtifact V) (set : Option SetKey)
      → IsCovered seen s
      → IsCovered (key_or set group.artifact.id ∷ seen) (add_keyed std s group set)
  group-IsCovered seen s group none covered = λ key held at. ground (
    arith,
    lookup-insert (sentinel std group.artifact.id) key group s.by_key,
    set_key_eq.beq_iff (sentinel std group.artifact.id) key,
    contains-append s.order (sentinel std group.artifact.id ∷ []) key,
    covered key held,
  )
  group-IsCovered seen s group (some k) covered =
      set-IsCovered seen s group k (lookup k s.by_key) refl covered

  missed :
      (k key : SetKey) (s : Merging V) {group : RolledUpArtifact V}
      → lookup k s.by_key ≡ none
      → lookup key s.by_key ≡ some group
      → (k == key) ≡ false
  missed k key s is at = elim (Bool-cases (k == key)) [
    | inl same ↦
        let both = ap (λ x. lookup x s.by_key) ((set_key_eq.beq_iff k key).0 same) ∙ at in
        ground (arith, is, both)
    | inr apart ↦ apart
  ]

  -- What was kept is kept.
  set-Kept :
      (sought : Text) (s : Merging V) (group : RolledUpArtifact V) (k : SetKey)
      (found : Option (RolledUpArtifact V))
      → lookup k s.by_key ≡ found
      → Kept sought s
      → Kept sought (add_set std s group k found)
  set-Kept sought s group k none is (key, held, waits, at, told) = (
    key,
    held,
    contains-append s.order (k ∷ []) key ∙ rw waits refl,
    lookup-insert k key group s.by_key ∙ rw (missed k key s is at) at,
    told,
  )
  set-Kept sought s group k (some existing) is (key, held, waits, at, told) =
      elim (Bool-cases (k == key)) [
        | inl same ↦
            let both : lookup k s.by_key ≡ some held =
              ap (λ x. lookup x s.by_key) ((set_key_eq.beq_iff k key).0 same) ∙ at in
            let one : existing ≡ held = ground (arith, is, both) in
            (
              key,
              merged_into existing group,
              waits,
              lookup-insert k key (merged_into existing group) s.by_key ∙ rw same refl,
              merged_tells sought existing group (rw one (rw told refl)),
            )
        | inr apart ↦ (
          key,
          held,
          waits,
          lookup-insert k key (merged_into existing group) s.by_key ∙ rw apart at,
          told,
        )
      ]

  group-Kept :
      (sought : Text) (seen : List SetKey) (s : Merging V) (group : RolledUpArtifact V)
      (set : Option SetKey)
      → OwnKey seen (key_or set group.artifact.id) set
      → IsCovered seen s
      → Kept sought s
      → Kept sought (add_keyed std s group set)
  group-Kept sought seen s group (some k) own covered kept =
      set-Kept sought s group k (lookup k s.by_key) refl kept
  group-Kept sought seen s group none own covered (key, held, waits, at, told) = (
    key,
    held,
    contains-append s.order (sentinel std group.artifact.id ∷ []) key ∙ rw waits refl,
    lookup-insert (sentinel std group.artifact.id) key group s.by_key
        ∙ rw (unseen (sentinel std group.artifact.id) key seen own (covered key held at).0) at,
    told,
  )

  -- The group that is added is kept.
  last_of_order : (order : List SetKey) (key : SetKey) → contains (order ++ (key ∷ [])) key ≡ true
  last_of_order order key =
      contains-append order (key ∷ []) key ∙ ground (arith, set_key_eq.beq_iff key key)

  found_again :
      (key : SetKey) (group : RolledUpArtifact V) (by_key : List (SetKey × RolledUpArtifact V))
      → lookup key (insert key group by_key) ≡ some group
  found_again key group by_key =
      lookup-insert key key group by_key ∙ rw ((set_key_eq.beq_iff key key).1 refl) refl

  set-Kept_new :
      (sought : Text) (seen : List SetKey) (s : Merging V) (group : RolledUpArtifact V) (k : SetKey)
      (found : Option (RolledUpArtifact V))
      → lookup k s.by_key ≡ found
      → IsCovered seen s
      → tells sought group.events ≡ true
      → Kept sought (add_set std s group k found)
  set-Kept_new sought seen s group k none is covered told =
      (k, group, last_of_order s.order k, found_again k group s.by_key, told)
  set-Kept_new sought seen s group k (some existing) is covered told = (
    k,
    merged_into existing group,
    (covered k existing is).1,
    found_again k (merged_into existing group) s.by_key,
    merged_tells sought existing group (ground (arith, told)),
  )

  group-Kept_new :
      (sought : Text) (seen : List SetKey) (s : Merging V) (group : RolledUpArtifact V)
      (set : Option SetKey)
      → IsCovered seen s
      → tells sought group.events ≡ true
      → Kept sought (add_keyed std s group set)
  group-Kept_new sought seen s group none covered told =
      let key = sentinel std group.artifact.id in
      (key, group, last_of_order s.order key, found_again key group s.by_key, told)
  group-Kept_new sought seen s group (some k) covered told =
      set-Kept_new sought seen s group k (lookup k s.by_key) refl covered told

  all-Kept :
      (sought : Text) (seen : List SetKey) (s : Merging V) (groups : List (RolledUpArtifact V))
      → IsApart seen groups
      → IsCovered seen s
      → Kept sought s
      → Kept sought (add_groups std s groups)
  unfolding add_groups
  all-Kept sought seen s [] apart covered kept = kept
  all-Kept sought seen s (group ∷ groups) (own, apart) covered kept =
      let set = commit_set_key group.artifact.payload in
      all-Kept sought (full_key group ∷ seen) (add_group std s group) groups apart
        (group-IsCovered seen s group set covered)
        (group-Kept sought seen s group set own covered kept)

  all-Kept_new :
      (sought : Text) (seen : List SetKey) (s : Merging V) (groups : List (RolledUpArtifact V))
      → IsApart seen groups
      → IsCovered seen s
      → mentions sought groups ≡ true
      → Kept sought (add_groups std s groups)
  unfolding add_groups
  all-Kept_new sought seen s [] apart covered told = ground arith
  all-Kept_new sought seen s (group ∷ groups) (own, apart) covered told =
      let set = commit_set_key group.artifact.payload in
      let after = group-IsCovered seen s group set covered in
      elim (Bool-cases (tells sought group.events)) [
        | inl here ↦
            all-Kept sought (full_key group ∷ seen) (add_group std s group) groups apart after
              (group-Kept_new sought seen s group set covered here)
        | inr later ↦
            all-Kept_new sought (full_key group ∷ seen) (add_group std s group) groups apart after
              (ground (arith, later, told))
      ]

  in_order-mentions :
      (sought : Text) (order : List SetKey) (by_key : List (SetKey × RolledUpArtifact V))
      (key : SetKey) (group : RolledUpArtifact V)
      → contains order key ≡ true
      → lookup key by_key ≡ some group
      → tells sought group.events ≡ true
      → mentions sought (in_order std order by_key) ≡ true
  unfolding in_order
  in_order-mentions sought [] by_key key group waits at told = ground arith
  in_order-mentions sought (first ∷ order) by_key key group waits at told =
      elim (Bool-cases (first == key)) [
        | inl same ↦
            let one : lookup first by_key ≡ some group =
              ap (λ x. lookup x by_key) ((set_key_eq.beq_iff first key).0 same) ∙ at in
            rw (one, told) refl
        | inr apart ↦
            let rest =
              in_order-mentions sought order (remove first by_key) key group
                (ground (arith, waits, apart)) (lookup-remove first key by_key ∙ rw apart at)
                told in
            elim (Option-cases (lookup first by_key)) [
              | inl missing ↦ rw missing rest
              | inr (other, found) ↦ rw (found, rest) (or_true (tells sought other.events))
            ]
      ]

  -- The merge loses nothing.
  pub merge_duplicate_commit_sets-mentions :
      (sought : Text) (groups : List (RolledUpArtifact V))
      → IsApart [] groups
      → mentions sought groups ≡ true
      → mentions sought (merge_duplicate_commit_sets std groups) ≡ true
  unfolding merge_duplicate_commit_sets lookup
  merge_duplicate_commit_sets-mentions sought groups apart told =
      let s = add_groups std (record { by_key = []; order = [] }) groups in
      let (key, group, waits, at, tells_it) =
        all-Kept_new sought [] (record { by_key = []; order = [] }) groups apart
          (λ key group at. ground (arith, at)) told in
      in_order-mentions sought s.order s.by_key key group waits at tells_it
