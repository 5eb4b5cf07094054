-- ===== src/Activity.antt =====
-- The data of crates/dayseam-core/src/types/activity.rs. `V` is the type of JSON values, which is
-- serde_json's. An identifier (`Uuid`) is its 128 bits as a number, and an instant a number.
mod RoundTrip
mod Kinds
mod Tests
use dayseam.Prelude.{
  ℕ, ◌≡◌, ◌↔◌, Bool, true, false, ◌&&◌, List, [], ◌∷◌, Option, arith, Eq, ◌==◌, list_eq, option_eq,
  nat_eq, list_eqb_iff, option_eqb_iff, if◌then◌else◌, refl,
}
use mathlib.Core.Bool.{decide, decide_iff}
use mathlib.Core.List.{List-discrete}
use native.Mathlib.Decide.{ℕ_discrete}
use dayseam.Text.{Text, codes}

pub data ActivityKind : Type 0 where
  commit_authored mr_opened mr_merged mr_closed mr_review_comment mr_approved : ActivityKind
  issue_opened issue_closed issue_comment : ActivityKind
  jira_issue_transitioned jira_issue_commented jira_issue_assigned : ActivityKind
  jira_issue_unassigned jira_issue_created : ActivityKind
  confluence_page_created confluence_page_edited confluence_comment : ActivityKind
  git_hub_pull_request_opened git_hub_pull_request_merged : ActivityKind
  git_hub_pull_request_closed git_hub_pull_request_reviewed : ActivityKind
  git_hub_pull_request_commented git_hub_issue_opened git_hub_issue_closed : ActivityKind
  git_hub_issue_commented git_hub_issue_assigned outlook_meeting_attended : ActivityKind

-- `kind == ActivityKind::CommitAuthored`
unfoldable pub is_commit_authored : ActivityKind → Bool
is_commit_authored commit_authored = true
is_commit_authored _ = false

-- `ActivityKind::all`, in the order of the declaration.
unfoldable pub all : List ActivityKind
all =
    commit_authored ∷ mr_opened ∷ mr_merged ∷ mr_closed ∷ mr_review_comment ∷ mr_approved
    ∷ issue_opened ∷ issue_closed ∷ issue_comment ∷ jira_issue_transitioned ∷ jira_issue_commented
    ∷ jira_issue_assigned ∷ jira_issue_unassigned ∷ jira_issue_created ∷ confluence_page_created
    ∷ confluence_page_edited ∷ confluence_comment ∷ git_hub_pull_request_opened
    ∷ git_hub_pull_request_merged ∷ git_hub_pull_request_closed ∷ git_hub_pull_request_reviewed
    ∷ git_hub_pull_request_commented ∷ git_hub_issue_opened ∷ git_hub_issue_closed
    ∷ git_hub_issue_commented ∷ git_hub_issue_assigned ∷ outlook_meeting_attended ∷ []

pub data EntityKind : Type 0 where
  repo project target jira_project jira_issue confluence_space confluence_page : EntityKind
  confluence_comment git_hub_repo git_hub_pull_request git_hub_issue : EntityKind
  outlook_event workspace : EntityKind
  other : Text → EntityKind

pub record Actor : Type 0 where
  pub display_name : Text
  pub email : Option Text
  pub external_id : Option Text

pub record Link : Type 0 where
  pub url : Text
  pub label : Option Text

pub record EntityRef : Type 0 where
  pub kind : EntityKind
  pub external_id : Text
  pub label : Option Text

pub record RawRef : Type 0 where
  pub storage_key : Text
  pub content_type : Text

pub data Privacy : Type 0 where
  normal redacted_private_repo : Privacy

pub record ActivityEvent (V : Type 0) : Type 0 where
  pub id : ℕ
  pub source_id : ℕ
  pub external_id : Text
  pub kind : ActivityKind
  pub occurred_at : ℕ
  pub actor : Actor
  pub title : Text
  pub body : Option Text
  pub links : List Link
  pub entities : List EntityRef
  pub parent_external_id : Option Text
  pub metadata : V
  pub raw_ref : RawRef
  pub privacy : Privacy

-- The stable serialised form of an entity kind, and its parse, which accepts every text.
unfoldable pub as_str : EntityKind → Text
as_str repo = codes "repo"
as_str project = codes "project"
as_str target = codes "target"
as_str jira_project = codes "jira_project"
as_str jira_issue = codes "jira_issue"
as_str confluence_space = codes "confluence_space"
as_str confluence_page = codes "confluence_page"
as_str confluence_comment = codes "confluence_comment"
as_str git_hub_repo = codes "github_repo"
as_str git_hub_pull_request = codes "github_pull_request"
as_str git_hub_issue = codes "github_issue"
as_str outlook_event = codes "outlook_event"
as_str workspace = codes "workspace"
as_str (other s) = s

pub from_str : Text → EntityKind
from_str s =
    if s == codes "repo"
    then repo
    else if s == codes "project"
    then project
    else if s == codes "target"
    then target
    else if s == codes "jira_project"
    then jira_project
    else if s == codes "jira_issue"
    then jira_issue
    else if s == codes "confluence_space"
    then confluence_space
    else if s == codes "confluence_page"
    then confluence_page
    else if s == codes "confluence_comment"
    then confluence_comment
    else if s == codes "github_repo"
    then git_hub_repo
    else if s == codes "github_pull_request"
    then git_hub_pull_request
    else if s == codes "github_issue"
    then git_hub_issue
    else if s == codes "outlook_event"
    then outlook_event
    else if s == codes "workspace"
    then workspace
    else other s

-- The derived `PartialEq`s.
abbrev pub EntityKind-discrete : Discrete EntityKind
EntityKind-discrete = hlevel (List-discrete ℕ_discrete)

instance abbrev pub entity_kind_eq : Eq EntityKind
entity_kind_eq = record {
  beq = λ a b. decide (EntityKind-discrete a b);
  beq_iff = λ a b. decide_iff (EntityKind-discrete a b);
}

abbrev pub link_eqb : Link → Link → Bool
link_eqb a b = a.url == b.url && a.label == b.label

pub link_eqb_iff : (a b : Link) → (link_eqb a b ≡ true) ↔ (a ≡ b)
link_eqb_iff a b = ground (arith, list_eqb_iff a.url b.url, option_eqb_iff a.label b.label)

abbrev pub entity_ref_eqb : EntityRef → EntityRef → Bool
entity_ref_eqb a b = a.kind == b.kind && a.external_id == b.external_id && a.label == b.label

pub entity_ref_eqb_iff : (a b : EntityRef) → (entity_ref_eqb a b ≡ true) ↔ (a ≡ b)
entity_ref_eqb_iff a b = ground (
  arith,
  entity_kind_eq.beq_iff a.kind b.kind,
  list_eqb_iff a.external_id b.external_id,
  option_eqb_iff a.label b.label,
)

instance abbrev pub link_eq : Eq Link
link_eq = record { beq = link_eqb; beq_iff = link_eqb_iff }

instance abbrev pub entity_ref_eq : Eq EntityRef
entity_ref_eq = record { beq = entity_ref_eqb; beq_iff = entity_ref_eqb_iff }
