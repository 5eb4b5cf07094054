-- ===== src/Rollup/Buckets.antt =====
-- The bucket of a merge request by the identity that is read from an event.
use dayseam.Prelude.{ℕ, ◌≡◌, arith, ◌↔◌, Option, none, some}
use dayseam.Text.{Text}
use dayseam.Activity.{ActivityEvent}
use dayseam.Rollup.{
  merge_request, MergeRequestProvider, git_lab, git_hub, Int64, Shape, jira, confluence, git_lab_mr,
  git_hub_pr, meeting, other, shape, gitlab_mr_identity, github_pr_identity, key_by, orphan_key,
  mr_key,
}

-- The merge request that an event of a known forge names, if its identity can be read.
abbrev pub provided :
    MergeRequestProvider → Option (Text × Int64) → Option (MergeRequestProvider × Text × Int64)
provided provider none = none
provided provider (some (project_key, number)) = some (provider, project_key, number)

abbrev pub identity_by :
    {V : Type 0} → Shape → ActivityEvent V → Option (MergeRequestProvider × Text × Int64)
identity_by git_lab_mr event = provided git_lab (gitlab_mr_identity event)
identity_by git_hub_pr event = provided git_hub (github_pr_identity event)
identity_by _ event = none

module _ {V : Type 0} (day_of : ℕ → ℕ) where
  mr_key_lem :
      (event : ActivityEvent V) (forge : MergeRequestProvider) (identity : Option (Text × Int64))
      (source : ℕ) (provider : MergeRequestProvider) (project_key : Text) (number : Int64) (day : ℕ)
      → (mr_key day_of event forge identity ≡ merge_request source provider project_key number day)
        ↔ ((provided forge identity ≡ some (provider, project_key, number))
            × (event.source_id ≡ source)
            × (day_of event.occurred_at ≡ day))
  unfolding mr_key
  mr_key_lem event forge none source provider project_key number day = ground arith
  mr_key_lem event forge (some (p, n)) source provider project_key number day = ground arith

  key_by_lem :
      (s : Shape) (event : ActivityEvent V) (source : ℕ) (provider : MergeRequestProvider)
      (project_key : Text) (number : Int64) (day : ℕ)
      → (key_by day_of s event ≡ merge_request source provider project_key number day) ↔ (
          (identity_by s event ≡ some (provider, project_key, number))
          × (event.source_id ≡ source)
          × (day_of event.occurred_at ≡ day))
  unfolding key_by
  key_by_lem git_lab_mr event source provider project_key number day =
      mr_key_lem event git_lab (gitlab_mr_identity event) source provider project_key number day
  key_by_lem git_hub_pr event source provider project_key number day =
      mr_key_lem event git_hub (github_pr_identity event) source provider project_key number day
  key_by_lem jira event source provider project_key number day = ground arith
  key_by_lem confluence event source provider project_key number day = ground arith
  key_by_lem meeting event source provider project_key number day = ground arith
  key_by_lem other event source provider project_key number day = ground arith

  pub orphan_key-identity :
      (event : ActivityEvent V) (source : ℕ) (provider : MergeRequestProvider) (project_key : Text)
      (number : Int64) (day : ℕ)
      → (orphan_key day_of event ≡ merge_request source provider project_key number day) ↔ (
          (identity_by (shape event.kind) event ≡ some (provider, project_key, number))
          × (event.source_id ≡ source)
          × (day_of event.occurred_at ≡ day))
  unfolding orphan_key
  orphan_key-identity event source provider project_key number day =
      key_by_lem (shape event.kind) event source provider project_key number day
