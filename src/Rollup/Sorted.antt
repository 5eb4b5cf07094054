-- ===== src/Rollup/Sorted.antt =====
-- The sort, and the groups that it leaves.
use Prim.Native.Nat.{compare, Ordering, lt, eq, gt}
use dayseam.Prelude.{ℕ, ◌≡◌, refl, ◌∙◌, ap, arith, true, false, List, [], ◌∷◌, Bool-cases, inl, inr}
use dayseam.Text.{Text}
use dayseam.Activity.{ActivityEvent}
use dayseam.Rollup.{kind_token}
use dayseam.Rollup.Groups.{
  ArtifactPayload, commit_set, jira_issue, confluence_page, merge_request, meeting, Artifact,
  RolledUpArtifact, Outside, then_with, text_cmp, is_after, sift, sort_by,
}
use dayseam.Rollup.Stages.{
  sort_groups, group_cmp, start_cmp, roll_up, group_all, merge_duplicate_commit_sets,
}

abbrev pub flip : Ordering → Ordering
flip lt = gt
flip eq = eq
flip gt = lt

compare-flip : (a b : ℕ) → compare b a ≡ flip (compare a b)
compare-flip a b = ground arith

then_with-flip : (a b : Ordering) → then_with (flip a) (flip b) ≡ flip (then_with a b)
then_with-flip lt b = refl
then_with-flip eq b = refl
then_with-flip gt b = refl

text_cmp-flip : (a b : Text) → text_cmp b a ≡ flip (text_cmp a b)
text_cmp-flip [] [] = refl
text_cmp-flip [] (d ∷ b) = refl
text_cmp-flip (c ∷ a) [] = refl
text_cmp-flip (c ∷ a) (d ∷ b) =
    rw (compare-flip c d, text_cmp-flip a b) (then_with-flip (compare c d) (text_cmp a b))

start_cmp-flip :
    (p q : ArtifactPayload) (x y : Ordering) → y ≡ flip x → start_cmp q p y ≡ flip (start_cmp p q x)
start_cmp-flip (commit_set _ _ _ _) (commit_set _ _ _ _) x y f = f
start_cmp-flip (commit_set _ _ _ _) (jira_issue _ _ _ _) x y f = f
start_cmp-flip (commit_set _ _ _ _) (confluence_page _ _ _ _) x y f = f
start_cmp-flip (commit_set _ _ _ _) (merge_request _ _ _ _ _ _ _) x y f = f
start_cmp-flip (commit_set _ _ _ _) (meeting _ _ _ _ _ _) x y f = f
start_cmp-flip (jira_issue _ _ _ _) (commit_set _ _ _ _) x y f = f
start_cmp-flip (jira_issue _ _ _ _) (jira_issue _ _ _ _) x y f = f
start_cmp-flip (jira_issue _ _ _ _) (confluence_page _ _ _ _) x y f = f
start_cmp-flip (jira_issue _ _ _ _) (merge_request _ _ _ _ _ _ _) x y f = f
start_cmp-flip (jira_issue _ _ _ _) (meeting _ _ _ _ _ _) x y f = f
start_cmp-flip (confluence_page _ _ _ _) (commit_set _ _ _ _) x y f = f
start_cmp-flip (confluence_page _ _ _ _) (jira_issue _ _ _ _) x y f = f
start_cmp-flip (confluence_page _ _ _ _) (confluence_page _ _ _ _) x y f = f
start_cmp-flip (confluence_page _ _ _ _) (merge_request _ _ _ _ _ _ _) x y f = f
start_cmp-flip (confluence_page _ _ _ _) (meeting _ _ _ _ _ _) x y f = f
start_cmp-flip (merge_request _ _ _ _ _ _ _) (commit_set _ _ _ _) x y f = f
start_cmp-flip (merge_request _ _ _ _ _ _ _) (jira_issue _ _ _ _) x y f = f
start_cmp-flip (merge_request _ _ _ _ _ _ _) (confluence_page _ _ _ _) x y f = f
start_cmp-flip (merge_request _ _ _ _ _ _ _) (merge_request _ _ _ _ _ _ _) x y f = f
start_cmp-flip (merge_request _ _ _ _ _ _ _) (meeting _ _ _ _ _ _) x y f = f
start_cmp-flip (meeting _ _ _ _ _ _) (commit_set _ _ _ _) x y f = f
start_cmp-flip (meeting _ _ _ _ _ _) (jira_issue _ _ _ _) x y f = f
start_cmp-flip (meeting _ _ _ _ _ _) (confluence_page _ _ _ _) x y f = f
start_cmp-flip (meeting _ _ _ _ _ _) (merge_request _ _ _ _ _ _ _) x y f = f
start_cmp-flip (meeting _ _ a _ _ _) (meeting _ _ b _ _ _) x y f = compare-flip a b

-- No element is after the next.
module _ {X : Type 0} (cmp : X → X → Ordering) where
  abbrev pub Leads : X → List X → Type 0
  Leads x [] = Unit
  Leads x (y ∷ ys) = is_after (cmp x y) ≡ false

  abbrev pub IsSorted : List X → Type 0
  IsSorted [] = Unit
  IsSorted (x ∷ xs) = Leads x xs × IsSorted xs

  module _ (flips : (a b : X) → cmp b a ≡ flip (cmp a b)) where
    not_after : (a b : X) → is_after (cmp a b) ≡ true → is_after (cmp b a) ≡ false
    not_after a b later = rw (flips a b) (after_flip (cmp a b) later)
      where
        after_flip : (o : Ordering) → is_after o ≡ true → is_after (flip o) ≡ false
        after_flip lt later = ground arith
        after_flip eq later = ground arith
        after_flip gt later = refl

    Leads-sift :
        (y x : X) (ys : List X) → is_after (cmp y x) ≡ false → Leads y ys → Leads y (sift cmp x ys)
    unfolding sift
    Leads-sift y x [] before leads = before
    Leads-sift y x (z ∷ ys) before leads = elim (Bool-cases (is_after (cmp x z))) [
      | inl later ↦ rw later leads
      | inr first ↦ rw first before
    ]

    sift-IsSorted : (x : X) (ys : List X) → IsSorted ys → IsSorted (sift cmp x ys)
    unfolding sift
    sift-IsSorted x [] sorted = (tt, tt)
    sift-IsSorted x (y ∷ ys) (leads, sorted) = elim (Bool-cases (is_after (cmp x y))) [
      | inl later ↦
          rw later (Leads-sift y x ys (not_after x y later) leads, sift-IsSorted x ys sorted)
      | inr first ↦ rw first (first, (leads, sorted))
    ]

    pub sort_by-IsSorted : (xs : List X) → IsSorted (sort_by cmp xs)
    unfolding sort_by
    sort_by-IsSorted [] = tt
    sort_by-IsSorted (x ∷ xs) = sift-IsSorted x (sort_by cmp xs) (sort_by-IsSorted xs)

module _ {V : Type 0} where
  group_cmp-flip : (a b : RolledUpArtifact V) → group_cmp b a ≡ flip (group_cmp a b)
  group_cmp-flip a b =
      let kinds = text_cmp (kind_token a.artifact.kind) (kind_token b.artifact.kind) in
      let names = text_cmp a.artifact.external_id b.artifact.external_id in
      let starts = start_cmp a.artifact.payload b.artifact.payload names in
      let ids = compare a.artifact.id b.artifact.id in
      rw
        (
          text_cmp-flip (kind_token a.artifact.kind) (kind_token b.artifact.kind),
          start_cmp-flip a.artifact.payload b.artifact.payload names
              (text_cmp b.artifact.external_id a.artifact.external_id)
              (text_cmp-flip a.artifact.external_id b.artifact.external_id),
          compare-flip a.artifact.id b.artifact.id,
        )
        (ap (then_with (flip kinds)) (then_with-flip starts ids)
          ∙ then_with-flip kinds (then_with starts ids))

module _ {V : Type 0} (std : Outside V) where
  -- No group is after the next by the comparison of the sort.
  pub roll_up-IsSorted :
      (events : List (ActivityEvent V)) (artifacts : List Artifact) (report_date : ℕ)
      → IsSorted group_cmp (roll_up std events artifacts report_date)
  unfolding roll_up sort_groups
  roll_up-IsSorted events artifacts report_date =
      sort_by-IsSorted group_cmp group_cmp-flip
        (merge_duplicate_commit_sets std (group_all std events artifacts report_date))
