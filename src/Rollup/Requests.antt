-- ===== src/Rollup/Requests.antt =====
-- Which events share the bucket of a merge request.
use dayseam.Prelude.{
  ℕ, ◌≡◌, ◌≢◌, ◌↔◌, refl, sym, ◌∙◌, arith, false, [], ◌∷◌, ◌++◌, Option, none, some,
}
use dayseam.Text.{Text, codes, text_eq, split_once}
use dayseam.Activity.{ActivityEvent, entity_kind_eq}
use dayseam.Rollup.{
  merge_request, MergeRequestProvider, git_lab, git_hub, Int64, Shape, git_lab_mr, git_hub_pr, jira,
  confluence, meeting, other, shape, gitlab_mr_identity, github_pr_identity, orphan_key,
}
use dayseam.Rollup.Buckets.{provided, identity_by, orphan_key-identity}
use dayseam.Rollup.Identities.{
  IsGitLab, IsGitHub, git_lab_mr-shape, git_hub_pr-shape, first_repo, external_id_of-find, has_code,
  split_once_lem, split_identity_lem, with_iid_lem, Numbers,
}

git_lab-provided :
    (identity : Option (Text × Int64)) (p : Text) (n : Int64)
    → (provided git_lab identity ≡ some (git_lab, p, n)) ↔ (identity ≡ some (p, n))
git_lab-provided none p n = ground arith
git_lab-provided (some (q, m)) p n = ground arith

git_hub-provided :
    (identity : Option (Text × Int64)) (p : Text) (n : Int64)
    → (provided git_hub identity ≡ some (git_hub, p, n)) ↔ (identity ≡ some (p, n))
git_hub-provided none p n = ground arith
git_hub-provided (some (q, m)) p n = ground arith

provided_apart :
    (identity : Option (Text × Int64)) (p : Text) (n : Int64)
    → (provided git_lab identity ≢ some (git_hub, p, n))
      × (provided git_hub identity ≢ some (git_lab, p, n))
provided_apart none p n = ground arith
provided_apart (some (q, m)) p n = ground arith

-- The shape that the events of a forge's merge requests have.
abbrev shape_of : MergeRequestProvider → Shape
shape_of git_lab = git_lab_mr
shape_of git_hub = git_hub_pr

module _ {V : Type 0} where
  -- The project and the number that an event names, by the forge. A GitLab event names the first
  -- repository among its entities, and the number behind `!`; a GitHub event names both, with the first
  -- `#` between them.
  abbrev pub Names : MergeRequestProvider → ActivityEvent V → Text → Int64 → Type 0
  Names git_lab event p n =
      (t : Text) × IsGitLab event.kind
      × (first_repo event.entities ≡ some p)
      × (p ≢ [])
      × (p ≢ codes "/")
      × (event.external_id ≡ b'!' ∷ t)
      × Numbers t n
  Names git_hub event p n =
      (t : Text) × IsGitHub event.kind
      × (p ≢ [])
      × (event.external_id ≡ p ++ b'#' ∷ t)
      × (has_code b'#' p ≡ false)
      × Numbers t n

  gitlab_mr_identity_lem :
      (event : ActivityEvent V) (p : Text) (n : Int64)
      → (gitlab_mr_identity event ≡ some (p, n)) ↔ (
          (t : Text) × (first_repo event.entities ≡ some p)
          × (p ≢ [])
          × (p ≢ codes "/")
          × (event.external_id ≡ b'!' ∷ t)
          × Numbers t n)
  unfolding gitlab_mr_identity
  gitlab_mr_identity_lem event p n =
      rw (external_id_of-find event.entities)
        (with_iid_lem event.external_id (first_repo event.entities) p n)

  github_pr_identity_lem :
      (event : ActivityEvent V) (p : Text) (n : Int64)
      → (github_pr_identity event ≡ some (p, n)) ↔ (
          (t : Text) × (p ≢ [])
          × (event.external_id ≡ p ++ b'#' ∷ t)
          × (has_code b'#' p ≡ false)
          × Numbers t n)
  unfolding github_pr_identity
  github_pr_identity_lem event p n = (
    λ h.
        let (t, full, splits, reads) =
          (split_identity_lem (split_once b'#' event.external_id) p n).0 h in
        let (spelled, first) = (split_once_lem b'#' event.external_id p t).0 splits in
        (t, full, spelled, first, reads),
    λ (t, full, spelled, first, reads).
        (split_identity_lem (split_once b'#' event.external_id) p n).1
          (t, full, (split_once_lem b'#' event.external_id p t).1 (spelled, first), reads),
  )

  Names-shape :
      (provider : MergeRequestProvider) (event : ActivityEvent V) (p : Text) (n : Int64)
      → Names provider event p n
      → shape event.kind ≡ shape_of provider
  Names-shape git_lab event p n (t, kind, named, full, apart, spelled, reads) =
      (git_lab_mr-shape event.kind).1 kind
  Names-shape git_hub event p n (t, kind, full, spelled, first, reads) =
      (git_hub_pr-shape event.kind).1 kind

  identity_by-none :
      (s : Shape) (provider : MergeRequestProvider) (event : ActivityEvent V) (p : Text) (n : Int64)
      → shape event.kind ≡ s
      → s ≢ shape_of provider
      → identity_by s event ≢ some (provider, p, n)
      → (identity_by s event ≡ some (provider, p, n)) ↔ Names provider event p n
  identity_by-none s provider event p n known apart refused = (
    λ h. absurd (refused h),
    λ names. absurd (apart (sym known ∙ Names-shape provider event p n names)),
  )

  identity_by-Names :
      (s : Shape) (provider : MergeRequestProvider) (event : ActivityEvent V) (p : Text) (n : Int64)
      → shape event.kind ≡ s
      → (identity_by s event ≡ some (provider, p, n)) ↔ Names provider event p n
  identity_by-Names git_lab_mr git_lab event p n known = (
    λ h.
        let (t, named, full, apart, spelled, reads) =
          (gitlab_mr_identity_lem event p n).0
            ((git_lab-provided (gitlab_mr_identity event) p n).0 h) in
        (t, (git_lab_mr-shape event.kind).0 known, named, full, apart, spelled, reads),
    λ (t, kind, named, full, apart, spelled, reads).
        (git_lab-provided (gitlab_mr_identity event) p n).1
          ((gitlab_mr_identity_lem event p n).1 (t, named, full, apart, spelled, reads)),
  )
  identity_by-Names git_hub_pr git_hub event p n known = (
    λ h.
        let (t, full, spelled, first, reads) =
          (github_pr_identity_lem event p n).0
            ((git_hub-provided (github_pr_identity event) p n).0 h) in
        (t, (git_hub_pr-shape event.kind).0 known, full, spelled, first, reads),
    λ (t, kind, full, spelled, first, reads).
        (git_hub-provided (github_pr_identity event) p n).1
          ((github_pr_identity_lem event p n).1 (t, full, spelled, first, reads)),
  )
  identity_by-Names git_lab_mr git_hub event p n known =
      identity_by-none git_lab_mr git_hub event p n known (ground arith)
        (provided_apart (gitlab_mr_identity event) p n).0
  identity_by-Names git_hub_pr git_lab event p n known =
      identity_by-none git_hub_pr git_lab event p n known (ground arith)
        (provided_apart (github_pr_identity event) p n).1
  identity_by-Names jira git_lab event p n known =
      identity_by-none jira git_lab event p n known (ground arith) (ground arith)
  identity_by-Names jira git_hub event p n known =
      identity_by-none jira git_hub event p n known (ground arith) (ground arith)
  identity_by-Names confluence git_lab event p n known =
      identity_by-none confluence git_lab event p n known (ground arith) (ground arith)
  identity_by-Names confluence git_hub event p n known =
      identity_by-none confluence git_hub event p n known (ground arith) (ground arith)
  identity_by-Names meeting git_lab event p n known =
      identity_by-none meeting git_lab event p n known (ground arith) (ground arith)
  identity_by-Names meeting git_hub event p n known =
      identity_by-none meeting git_hub event p n known (ground arith) (ground arith)
  identity_by-Names other git_lab event p n known =
      identity_by-none other git_lab event p n known (ground arith) (ground arith)
  identity_by-Names other git_hub event p n known =
      identity_by-none other git_hub event p n known (ground arith) (ground arith)

  -- An orphan event falls into the bucket of a merge request if and only if it comes from the source and
  -- the day of the bucket and names this request of this forge: it is opened, merged, closed, commented
  -- on or approved on GitLab, its first repository is the project, neither empty nor `/`, and its
  -- identifier is `!` and the number; or it is opened, merged, closed, reviewed or commented on on
  -- GitHub, and its identifier is the project, not empty, a `#`, the first one, and the number.
  pub orphan_key-merge_request :
      (day_of : ℕ → ℕ) (event : ActivityEvent V) (source : ℕ) (provider : MergeRequestProvider)
      (project_key : Text) (number : Int64) (day : ℕ)
      → (orphan_key day_of event ≡ merge_request source provider project_key number day) ↔ (
          Names provider event project_key number
          × (event.source_id ≡ source)
          × (day_of event.occurred_at ≡ day))
  orphan_key-merge_request day_of event source provider project_key number day =
      let bucket = orphan_key-identity day_of event source provider project_key number day in
      let names = identity_by-Names (shape event.kind) provider event project_key number refl in
      (
        λ h. let (named, from, on) = bucket.0 h in (names.0 named, from, on),
        λ (named, from, on). bucket.1 (names.1 named, from, on),
      )
