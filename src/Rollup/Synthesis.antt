-- ===== src/Rollup/Synthesis.antt =====
-- The order of the buckets of orphan events, and the artifact that is made of each.
use Prim.Native.Nat.{compare, Ordering, lt, eq, gt}
use dayseam.Prelude.{
  ℕ, Bool, true, false, List, [], ◌∷◌, ◌++◌, Option, none, some, Eq, map, if◌then◌else◌,
}
use mathlib.Core.Bool.{decide, decide_iff}
use mathlib.Core.List.{List-discrete}
use native.Mathlib.Decide.{ℕ_discrete}
use dayseam.Text.{Text, codes, text_eq}
use dayseam.Activity.{ActivityEvent, Link}
use dayseam.Rollup.{
  ArtifactKind, MergeRequestProvider, git_lab, git_hub, Int64, plus, minus, OrphanKey,
  extract_mr_title,
}
use dayseam.Rollup.Groups.{ArtifactPayload, Artifact, Outside, then_with, text_cmp, show_i64}

-- The derived `PartialEq` and `Ord`; a path before another is `lt`.
abbrev pub MergeRequestProvider-discrete : Discrete MergeRequestProvider
MergeRequestProvider-discrete = hlevel

abbrev pub Int64-discrete : Discrete Int64
Int64-discrete = hlevel ℕ_discrete

abbrev pub OrphanKey-discrete : Discrete OrphanKey
OrphanKey-discrete =
    hlevel (List-discrete ℕ_discrete, ℕ_discrete, MergeRequestProvider-discrete, Int64-discrete)

instance abbrev pub orphan_key_eq : Eq OrphanKey
orphan_key_eq = record {
  beq = λ a b. decide (OrphanKey-discrete a b);
  beq_iff = λ a b. decide_iff (OrphanKey-discrete a b);
}

abbrev pub variant : OrphanKey → ℕ
variant (OrphanKey.commit_set source_id repo_path day) = 0
variant (OrphanKey.jira_issue source_id issue_key project_key day) = 1
variant (OrphanKey.confluence_page source_id page_id space_key day) = 2
variant (OrphanKey.merge_request source_id provider project_key number day) = 3
variant (OrphanKey.outlook_meeting source_id event_id day) = 4

abbrev pub provider_place : MergeRequestProvider → ℕ
provider_place git_lab = 0
provider_place git_hub = 1

abbrev pub int_cmp : Int64 → Int64 → Ordering
int_cmp (minus a) (minus b) = compare b a
int_cmp (minus a) (plus b) = lt
int_cmp (plus a) (minus b) = gt
int_cmp (plus a) (plus b) = compare a b

abbrev pub path_cmp : (Text → Text → Bool) → Text → Text → Ordering
path_cmp before a b = if before a b then lt else if before b a then gt else eq

unfoldable pub orphan_cmp : (Text → Text → Bool) → OrphanKey → OrphanKey → Ordering
orphan_cmp before (OrphanKey.commit_set a p d) (OrphanKey.commit_set b q e) =
    then_with (compare a b) (then_with (path_cmp before p q) (compare d e))
orphan_cmp before (OrphanKey.jira_issue a i p d) (OrphanKey.jira_issue b j q e) =
    then_with (compare a b) (then_with (text_cmp i j) (then_with (text_cmp p q) (compare d e)))
orphan_cmp before (OrphanKey.confluence_page a i p d) (OrphanKey.confluence_page b j q e) =
    then_with (compare a b) (then_with (text_cmp i j) (then_with (text_cmp p q) (compare d e)))
orphan_cmp before (OrphanKey.merge_request a v p n d) (OrphanKey.merge_request b u q m e) =
    then_with (compare a b) (
      then_with (compare (provider_place v) (provider_place u))
        (then_with (text_cmp p q) (then_with (int_cmp n m) (compare d e))))
orphan_cmp before (OrphanKey.outlook_meeting a i d) (OrphanKey.outlook_meeting b j e) =
    then_with (compare a b) (then_with (text_cmp i j) (compare d e))
orphan_cmp before a b = compare (variant a) (variant b)

abbrev pub is_before : Ordering → Bool
is_before lt = true
is_before eq = false
is_before gt = false

abbrev pub sigil : MergeRequestProvider → Text
sigil git_lab = codes "!"
sigil git_hub = codes "#"

abbrev pub synthetic_commit_set_external_id : Text → Text → Text
synthetic_commit_set_external_id repo_path day =
    repo_path ++ (codes "::" ++ (day ++ codes "::synthetic"))

abbrev pub unwrap_or : {A : Type 0} → Option A → A → A
unwrap_or none d = d
unwrap_or (some a) d = a

abbrev pub first_link : List Link → Text → Text
first_link [] next = next
first_link (link ∷ links) next = link.url

module _ {V : Type 0} where
  abbrev pub first_title : List (ActivityEvent V) → Text
  first_title [] = []
  first_title (event ∷ events) = event.title

  -- The first link of the first event that has one.
  abbrev pub url_of : List (ActivityEvent V) → Text
  url_of [] = []
  url_of (event ∷ events) = first_link event.links (url_of events)

module _ {V : Type 0} (std : Outside V) where
  abbrev pub meeting_bounds : List (ActivityEvent V) → ℕ × ℕ
  meeting_bounds [] = (std.now, std.now)
  meeting_bounds (first ∷ events) =
      let start = unwrap_or (std.start_utc first.metadata) first.occurred_at in
      (start, unwrap_or (std.end_utc first.metadata) start)

  abbrev pub minted : ℕ → ArtifactKind → Text → ArtifactPayload → ℕ → Artifact
  minted source_id kind external_id payload created_at = record {
    id = std.deterministic source_id kind external_id;
    source_id = source_id;
    kind = kind;
    external_id = external_id;
    payload = payload;
    created_at = created_at;
  }

  abbrev pub ids : List (ActivityEvent V) → List ℕ
  ids = map (λ e. e.id)

  unfoldable pub synthesize_artifact : OrphanKey → List (ActivityEvent V) → ℕ → Artifact
  synthesize_artifact (OrphanKey.commit_set source_id repo_path day) events report_date =
      minted source_id ArtifactKind.commit_set
        (synthetic_commit_set_external_id repo_path (std.show_day day))
        (ArtifactPayload.commit_set repo_path day (ids events) (map (λ e. e.external_id) events))
        (std.midnight report_date)
  synthesize_artifact (OrphanKey.jira_issue source_id issue_key project_key day) events
        report_date =
      minted source_id ArtifactKind.jira_issue (issue_key ++ (codes "::" ++ std.show_day day))
        (ArtifactPayload.jira_issue issue_key project_key day (ids events))
        (std.midnight report_date)
  synthesize_artifact (OrphanKey.confluence_page source_id page_id space_key day) events
        report_date =
      minted source_id ArtifactKind.confluence_page (page_id ++ (codes "::" ++ std.show_day day))
        (ArtifactPayload.confluence_page page_id space_key day (ids events))
        (std.midnight report_date)
  synthesize_artifact (OrphanKey.outlook_meeting source_id event_id day) events report_date =
      let (start_utc, end_utc) = meeting_bounds events in
      minted source_id ArtifactKind.outlook_meeting event_id
        (ArtifactPayload.meeting event_id (first_title events) start_utc end_utc day (ids events))
        (std.midnight report_date)
  synthesize_artifact (OrphanKey.merge_request source_id provider project_key number day) events
        report_date =
      minted source_id ArtifactKind.git_hub_pull_request
        (project_key ++ (sigil provider ++ (show_i64 number ++ (codes "::" ++ std.show_day day))))
        (ArtifactPayload.merge_request provider number project_key (extract_mr_title events)
          (url_of events) day (ids events))
        (std.midnight report_date)
