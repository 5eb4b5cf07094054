-- ===== src/Rollup/Fitting.antt =====
-- The groups of `roll_up` have payloads that fit their kinds, if the artifacts do; so their order is one
-- of all groups.
use Prim.Native.Nat.{Ordering}
use dayseam.Prelude.{
  ℕ, refl, List, [], ◌∷◌, ◌++◌, Option, none, some, Every, Every-append, Bool-cases, Option-cases,
  inl, inr, ◌==◌,
}
use dayseam.Prelude.Maps.{lookup, insert, remove}
use dayseam.Activity.{ActivityEvent}
use dayseam.Rollup.{OrphanKey}
use dayseam.Rollup.Groups.{Artifact, RolledUpArtifact, Outside, event_ids, is_after, sift, sort_by}
use dayseam.Rollup.Synthesis.{synthesize_artifact}
use dayseam.Rollup.Stages.{
  SetKey, set_key_eq, Merging, claim, claim_all, merged_into, add_set, add_group, add_groups,
  in_order, merge_duplicate_commit_sets, synthesize_all, bucket, group_all, sort_groups,
  sort_events, group_cmp, roll_up, event_by_id, sentinel, commit_set_key,
}
use dayseam.Rollup.Sorted.{roll_up-IsSorted}
use dayseam.Rollup.Ordered.{Fits, AllFit, IsOrdered, IsSorted-IsOrdered}

sift-Every :
    {X : Type 0} (P : X → Type 0) (cmp : X → X → Ordering) (x : X) (ys : List X)
    → P x
    → Every P ys
    → Every P (sift cmp x ys)
unfolding sift
sift-Every P cmp x [] px all = (px, tt)
sift-Every P cmp x (y ∷ ys) px (py, all) = elim (Bool-cases (is_after (cmp x y))) [
  | inl later ↦ rw later (py, sift-Every P cmp x ys px all)
  | inr first ↦ rw first (px, (py, all))
]

sort_by-Every :
    {X : Type 0} (P : X → Type 0) (cmp : X → X → Ordering) (xs : List X)
    → Every P xs
    → Every P (sort_by cmp xs)
unfolding sort_by
sort_by-Every P cmp [] all = tt
sort_by-Every P cmp (x ∷ xs) (px, all) =
    sift-Every P cmp x (sort_by cmp xs) px (sort_by-Every P cmp xs all)

module _ {V : Type 0} where
  abbrev HoldsFit : List (SetKey × RolledUpArtifact V) → Type 0
  HoldsFit = Every (λ (key, g). Fits g.artifact)

  abbrev GivesFit : Option (RolledUpArtifact V) → Type 0
  GivesFit none = Unit
  GivesFit (some g) = Fits g.artifact

  insert-HoldsFit :
      (key : SetKey) (g : RolledUpArtifact V) (by_key : List (SetKey × RolledUpArtifact V))
      → Fits g.artifact
      → HoldsFit by_key
      → HoldsFit (insert key g by_key)
  unfolding insert
  insert-HoldsFit key g [] fits all = (fits, tt)
  insert-HoldsFit key g ((k, h) ∷ by_key) fits (here, all) = elim (Bool-cases (k == key)) [
    | inl same ↦ rw same (fits, all)
    | inr apart ↦ rw apart (here, insert-HoldsFit key g by_key fits all)
  ]

  remove-HoldsFit :
      (key : SetKey) (by_key : List (SetKey × RolledUpArtifact V))
      → HoldsFit by_key
      → HoldsFit (remove key by_key)
  unfolding remove
  remove-HoldsFit key [] all = tt
  remove-HoldsFit key ((k, h) ∷ by_key) (here, all) = elim (Bool-cases (k == key)) [
    | inl same ↦ rw same (remove-HoldsFit key by_key all)
    | inr apart ↦ rw apart (here, remove-HoldsFit key by_key all)
  ]

  lookup-GivesFit :
      (key : SetKey) (by_key : List (SetKey × RolledUpArtifact V))
      → HoldsFit by_key
      → GivesFit (lookup key by_key)
  unfolding lookup
  lookup-GivesFit key [] all = tt
  lookup-GivesFit key ((k, h) ∷ by_key) (here, all) = elim (Bool-cases (k == key)) [
    | inl same ↦ rw same here
    | inr apart ↦ rw apart (lookup-GivesFit key by_key all)
  ]

  claim_all-AllFit :
      (artifacts : List Artifact) (by_id : List (ℕ × ActivityEvent V))
      → Every Fits artifacts
      → AllFit (claim_all artifacts by_id).0
  unfolding claim_all
  claim_all-AllFit [] by_id fit = tt
  claim_all-AllFit (a ∷ artifacts) by_id (fits, fit) =
      (fits, claim_all-AllFit artifacts (claim (event_ids a.payload) by_id).1 fit)

module _ {V : Type 0} (std : Outside V) where
  in_order-AllFit :
      (order : List SetKey) (by_key : List (SetKey × RolledUpArtifact V))
      → HoldsFit by_key
      → AllFit (in_order std order by_key)
  unfolding in_order
  in_order-AllFit [] by_key all = tt
  in_order-AllFit (key ∷ order) by_key all =
      let rest = in_order-AllFit order (remove key by_key) (remove-HoldsFit key by_key all) in
      let here = lookup-GivesFit key by_key all in
      elim (Option-cases (lookup key by_key)) [
        | inl missing ↦ rw missing rest
        | inr (g, found) ↦ rw found (rw found at here, rest)
      ]

  synthesize_artifact-Fits :
      (key : OrphanKey) (events : List (ActivityEvent V)) (day : ℕ)
      → Fits (synthesize_artifact std key events day)
  unfolding synthesize_artifact
  synthesize_artifact-Fits (OrphanKey.commit_set s p d) events day = refl
  synthesize_artifact-Fits (OrphanKey.jira_issue s i p d) events day = refl
  synthesize_artifact-Fits (OrphanKey.confluence_page s i p d) events day = refl
  synthesize_artifact-Fits (OrphanKey.outlook_meeting s e d) events day = refl
  synthesize_artifact-Fits (OrphanKey.merge_request s f p n d) events day = refl

  synthesize_all-AllFit :
      (day : ℕ) (buckets : List (OrphanKey × List (ActivityEvent V)))
      → AllFit (synthesize_all std day buckets)
  unfolding synthesize_all
  synthesize_all-AllFit day [] = tt
  synthesize_all-AllFit day ((key, events) ∷ buckets) =
      (synthesize_artifact-Fits key (sort_events events) day, synthesize_all-AllFit day buckets)

  add_set-HoldsFit :
      (s : Merging V) (g : RolledUpArtifact V) (key : SetKey) (found : Option (RolledUpArtifact V))
      → GivesFit found
      → Fits g.artifact
      → HoldsFit s.by_key
      → HoldsFit (add_set std s g key found).by_key
  add_set-HoldsFit s g key none given fits all = insert-HoldsFit key g s.by_key fits all
  add_set-HoldsFit s g key (some h) given fits all =
      insert-HoldsFit key (merged_into h g) s.by_key given all

  add_group-HoldsFit :
      (s : Merging V) (g : RolledUpArtifact V)
      → Fits g.artifact
      → HoldsFit s.by_key
      → HoldsFit (add_group std s g).by_key
  add_group-HoldsFit s g fits all = elim (Option-cases (commit_set_key g.artifact.payload)) [
    | inl none_set ↦ rw none_set (insert-HoldsFit (sentinel std g.artifact.id) g s.by_key fits all)
    | inr (key, set) ↦
        rw set (
          add_set-HoldsFit s g key (lookup key s.by_key) (lookup-GivesFit key s.by_key all) fits
            all)
  ]

  add_groups-HoldsFit :
      (s : Merging V) (groups : List (RolledUpArtifact V))
      → AllFit groups
      → HoldsFit s.by_key
      → HoldsFit (add_groups std s groups).by_key
  unfolding add_groups
  add_groups-HoldsFit s [] fit all = all
  add_groups-HoldsFit s (g ∷ groups) (fits, fit) all =
      add_groups-HoldsFit (add_group std s g) groups fit (add_group-HoldsFit s g fits all)

  roll_up-AllFit :
      (events : List (ActivityEvent V)) (artifacts : List Artifact) (day : ℕ)
      → Every Fits artifacts
      → AllFit (roll_up std events artifacts day)
  unfolding roll_up sort_groups merge_duplicate_commit_sets group_all
  roll_up-AllFit events artifacts day fit =
      let claimed = claim_all artifacts (event_by_id events []) in
      let merging =
        add_groups std (record { by_key = []; order = [] })
          (claimed.0 ++ synthesize_all std day (bucket std claimed.1 [])) in
      sort_by-Every (λ g. Fits g.artifact) group_cmp (in_order std merging.order merging.by_key)
        (in_order-AllFit merging.order merging.by_key (
          add_groups-HoldsFit (record { by_key = []; order = [] }) _
            (Every-append (λ g. Fits g.artifact) claimed.0 _
              (claim_all-AllFit artifacts (event_by_id events []) fit)
              (synthesize_all-AllFit day (bucket std claimed.1 [])))
            tt))

  -- If each artifact is a meeting exactly if its payload is one: each group of `roll_up` comes before all
  -- that are behind it in this order. The kinds stand by the alphabet of their names; meetings stand by
  -- their start, other groups of one kind by the external identifier, code point by code point; and of
  -- two that are alike in this the one of the smaller identifier comes first.
  pub roll_up-IsOrdered :
      (events : List (ActivityEvent V)) (artifacts : List Artifact) (report_date : ℕ)
      → Every Fits artifacts
      → IsOrdered (roll_up std events artifacts report_date)
  roll_up-IsOrdered events artifacts report_date fit =
      IsSorted-IsOrdered (roll_up std events artifacts report_date)
        (roll_up-AllFit events artifacts report_date fit)
        (roll_up-IsSorted std events artifacts report_date)
