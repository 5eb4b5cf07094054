-- ===== src/Rollup.antt =====
-- crates/dayseam-report/src/rollup.rs: the bucket of an event that no artifact claims, and the title
-- of a bucket of merge-request events; with the payloads of
-- crates/dayseam-core/src/types/artifact.rs. A day is a number, and the day of an instant is an
-- argument, since it is chrono's. A path is its text, in one spelling for all
-- paths of the same components, which is what the source compares. An `i64` is a sign and a size in
-- its range.
pub mod Groups
pub mod Synthesis
pub mod Stages
pub mod Told
pub mod Merge
pub mod Kept
pub mod Sorted
pub mod Ordered
pub mod Fitting
mod Buckets
mod Identities
mod Requests
mod GroupTests
mod Tests
use dayseam.Prelude.{
  ℕ, ◌+◌, ◌*◌, ◌-◌, ◌^◌, Bool, true, false, not, ◌&&◌, ◌||◌, List, [], ◌∷◌, Option, none, some,
  ◌==◌, find, if◌then◌else◌, leb, nat_eqb,
}
use dayseam.Text.{Text, codes, text_eq, is_empty, strip_prefix, split_once}
use dayseam.Activity.{
  ActivityEvent, ActivityKind, EntityKind, EntityRef, entity_kind_eq, mr_opened, mr_merged,
  mr_closed, mr_review_comment, mr_approved, jira_issue_transitioned, jira_issue_commented,
  jira_issue_assigned, jira_issue_unassigned, jira_issue_created, confluence_page_created,
  confluence_page_edited, confluence_comment, git_hub_pull_request_opened,
  git_hub_pull_request_merged, git_hub_pull_request_closed, git_hub_pull_request_reviewed,
  git_hub_pull_request_commented, outlook_meeting_attended,
}
use dayseam.Report.{GroupKind, GroupKey, group_key_from_event}

pub data MergeRequestProvider : Type 0 where
  git_lab git_hub : MergeRequestProvider

pub data Int64 : Type 0 where
  plus minus : ℕ → Int64

pub data ArtifactKind : Type 0 where
  commit_set jira_issue confluence_page git_hub_pull_request git_hub_issue : ArtifactKind
  outlook_meeting : ArtifactKind

pub kind_token : ArtifactKind → Text
kind_token ArtifactKind.commit_set = codes "CommitSet"
kind_token ArtifactKind.jira_issue = codes "JiraIssue"
kind_token ArtifactKind.confluence_page = codes "ConfluencePage"
kind_token ArtifactKind.git_hub_pull_request = codes "GitHubPullRequest"
kind_token ArtifactKind.git_hub_issue = codes "GitHubIssue"
kind_token ArtifactKind.outlook_meeting = codes "OutlookMeeting"

-- `i64::from_str`: a sign, if any, and digits, in the range of 64 bits.
abbrev pub digit : ℕ → Option ℕ
digit c = if leb b'0' c && leb c b'9' then some (c - b'0') else none

pub digits : ℕ → Text → Option ℕ
digits value [] = some value
digits value (c ∷ s) = elim (digit c) [ none ↦ none | some d ↦ digits (value * 10 + d) s ]

abbrev pub bounded : ℕ → (ℕ → Int64) → Option ℕ → Option Int64
bounded limit sign none = none
bounded limit sign (some value) = if leb value limit then some (sign value) else none

-- `-0` is 0.
abbrev pub negative : ℕ → Int64
negative value = if nat_eqb value 0 then plus 0 else minus value

abbrev pub some_digits : Text → Option ℕ
some_digits [] = none
some_digits (c ∷ s) = digits 0 (c ∷ s)

pub parse_i64 : Text → Option Int64
unfolding digits
parse_i64 [] = none
parse_i64 (c ∷ s) =
    if nat_eqb c b'-'
    then bounded (2 ^ 63) negative (some_digits s)
    else if nat_eqb c b'+'
    then bounded (2 ^ 63 - 1) plus (some_digits s)
    else bounded (2 ^ 63 - 1) plus (some_digits (c ∷ s))

pub data OrphanKey : Type 0 where
  commit_set : ℕ → Text → ℕ → OrphanKey
  jira_issue : ℕ → Text → Text → ℕ → OrphanKey
  confluence_page : ℕ → Text → Text → ℕ → OrphanKey
  merge_request : ℕ → MergeRequestProvider → Text → Int64 → ℕ → OrphanKey
  outlook_meeting : ℕ → Text → ℕ → OrphanKey

-- The identity that an event names: the project and the number.
abbrev pub numbered : Text → Option Int64 → Option (Text × Int64)
numbered project_key none = none
numbered project_key (some number) = some (project_key, number)

abbrev pub external_id_of : Option EntityRef → Option Text
external_id_of none = none
external_id_of (some e) = some e.external_id

abbrev pub usable : Option Text → Option Text
usable none = none
usable (some s) = if not (is_empty s) && not (s == codes "/") then some s else none

abbrev pub iid_of : Text → Option Text → Option (Text × Int64)
iid_of project_key none = none
iid_of project_key (some iid) = numbered project_key (parse_i64 iid)

abbrev pub with_iid : Text → Option Text → Option (Text × Int64)
with_iid external_id none = none
with_iid external_id (some project_key) = iid_of project_key (strip_prefix (codes "!") external_id)

abbrev pub split_identity : Option (Text × Text) → Option (Text × Int64)
split_identity none = none
split_identity (some (project_key, number_str)) =
    if is_empty project_key then none else numbered project_key (parse_i64 number_str)

abbrev pub or_unknown : Option EntityRef → Text
or_unknown none = codes "UNKNOWN"
or_unknown (some e) = e.external_id

-- Which bucket a kind of event asks for.
pub data Shape : Type 0 where
  jira confluence git_lab_mr git_hub_pr meeting other : Shape

pub shape : ActivityKind → Shape
shape jira_issue_transitioned = jira
shape jira_issue_commented = jira
shape jira_issue_assigned = jira
shape jira_issue_unassigned = jira
shape jira_issue_created = jira
shape confluence_page_created = confluence
shape confluence_page_edited = confluence
shape ActivityKind.confluence_comment = confluence
shape mr_opened = git_lab_mr
shape mr_merged = git_lab_mr
shape mr_closed = git_lab_mr
shape mr_review_comment = git_lab_mr
shape mr_approved = git_lab_mr
shape git_hub_pull_request_opened = git_hub_pr
shape git_hub_pull_request_merged = git_hub_pr
shape git_hub_pull_request_closed = git_hub_pr
shape git_hub_pull_request_reviewed = git_hub_pr
shape git_hub_pull_request_commented = git_hub_pr
shape outlook_meeting_attended = meeting
shape _ = other

abbrev pub prefixes : List Text
prefixes =
    codes "Opened MR: "
    ∷ codes "Merged MR: "
    ∷ codes "Closed MR: "
    ∷ codes "Approved MR: "
    ∷ codes "Commented on MR: "
    ∷ codes "Opened PR: "
    ∷ codes "Merged PR: "
    ∷ codes "Closed PR: "
    ∷ codes "Reviewed PR: "
    ∷ codes "Commented on PR: "
    ∷ []

pub opens_mr : ActivityKind → Bool
opens_mr mr_opened = true
opens_mr git_hub_pull_request_opened = true
opens_mr _ = false

abbrev pub stripped : Option Text → Text → Text
stripped none rest = rest
stripped (some title) rest = title

pub strip_first : List Text → Text → Text
strip_first [] title = title
strip_first (p ∷ ps) title = stripped (strip_prefix p title) (strip_first ps title)

pub strip_mr_prefix : Text → Text
unfolding strip_first
strip_mr_prefix title = strip_first prefixes title

module _ {V : Type 0} where
  abbrev pub entity : ActivityEvent V → EntityKind → Option EntityRef
  entity event kind = find (λ e. e.kind == kind) event.entities

  pub gitlab_mr_identity : ActivityEvent V → Option (Text × Int64)
  gitlab_mr_identity event =
      with_iid event.external_id (usable (external_id_of (entity event EntityKind.repo)))

  pub github_pr_identity : ActivityEvent V → Option (Text × Int64)
  github_pr_identity event = split_identity (split_once b'#' event.external_id)

  -- The title of a bucket: that of its first event that opened the request, or of its first event,
  -- less the words in front of it.
  pub title_of : Option (ActivityEvent V) → List (ActivityEvent V) → Text
  title_of (some opened) events = opened.title
  title_of none [] = []
  title_of none (first ∷ events) = first.title

  pub extract_mr_title : List (ActivityEvent V) → Text
  unfolding title_of
  extract_mr_title events = strip_mr_prefix (title_of (find (λ e. opens_mr e.kind) events) events)

module _ {V : Type 0} (day_of : ℕ → ℕ) where
  -- Without an identity the event falls into the commit set of its repository.
  pub mr_key : ActivityEvent V → MergeRequestProvider → Option (Text × Int64) → OrphanKey
  mr_key event provider none =
      OrphanKey.commit_set event.source_id (group_key_from_event event).value
        (day_of event.occurred_at)
  mr_key event provider (some (project_key, number)) =
      merge_request event.source_id provider project_key number (day_of event.occurred_at)

  pub key_by : Shape → ActivityEvent V → OrphanKey
  unfolding mr_key gitlab_mr_identity github_pr_identity
  key_by jira event =
      OrphanKey.jira_issue event.source_id (or_unknown (entity event EntityKind.jira_issue))
        (group_key_from_event event).value (day_of event.occurred_at)
  key_by confluence event =
      OrphanKey.confluence_page event.source_id
        (or_unknown (entity event EntityKind.confluence_page)) (group_key_from_event event).value
        (day_of event.occurred_at)
  key_by git_lab_mr event = mr_key event git_lab (gitlab_mr_identity event)
  key_by git_hub_pr event = mr_key event git_hub (github_pr_identity event)
  key_by meeting event =
      OrphanKey.outlook_meeting event.source_id event.external_id (day_of event.occurred_at)
  key_by other event =
      OrphanKey.commit_set event.source_id (group_key_from_event event).value
        (day_of event.occurred_at)

  pub orphan_key : ActivityEvent V → OrphanKey
  unfolding key_by
  orphan_key event = key_by (shape event.kind) event
