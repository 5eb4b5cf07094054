-- ===== src/Report.antt =====
-- crates/dayseam-report/src: two stages that prepare events for a report. group_key.rs says under
-- which section an event renders; rollup_mr.rs tags commits with the merge request they belong to.
-- A hash map is an association list.
mod Keys
pub mod Tagging
mod Tests
use dayseam.Prelude.{
  ◌≡◌, Bool, true, false, not, ◌&&◌, List, [], ◌∷◌, Option, none, some, ◌==◌, find, map,
  if◌then◌else◌,
}
use dayseam.Prelude.Maps.{lookup}
use dayseam.Text.{Text, codes, text_eq, is_empty}
use dayseam.Activity.{
  ActivityEvent, ActivityKind, EntityKind, EntityRef, entity_kind_eq, is_commit_authored,
  jira_project, confluence_space, git_hub_repo, jira_issue_transitioned, jira_issue_commented,
  jira_issue_assigned, jira_issue_unassigned, jira_issue_created, confluence_page_created,
  confluence_page_edited, confluence_comment, git_hub_pull_request_opened,
  git_hub_pull_request_merged, git_hub_pull_request_closed, git_hub_pull_request_reviewed,
  git_hub_pull_request_commented, git_hub_issue_opened, git_hub_issue_closed,
  git_hub_issue_commented, git_hub_issue_assigned,
}

pub data GroupKind : Type 0 where
  repo project space : GroupKind

pub record GroupKey : Type 0 where
  pub kind : GroupKind
  pub value : Text
  pub label : Option Text

pub display : GroupKey → Text
display k = shown k.label
  where
    shown : Option Text → Text
    shown none = k.value
    shown (some label) = label

pub key_of : GroupKind → Option EntityRef → GroupKey
key_of group_kind none = record { kind = group_kind; value = codes "/"; label = none }
key_of group_kind (some e) = record {
  kind = group_kind;
  value = if is_empty e.external_id then codes "/" else e.external_id;
  label = e.label;
}

pub entity_group : {V : Type 0} → ActivityEvent V → EntityKind → GroupKind → GroupKey
entity_group event entity_kind group_kind =
    key_of group_kind (find (λ e. e.kind == entity_kind) event.entities)

-- The entity and the section of each kind of event.
pub grouping : ActivityKind → EntityKind × GroupKind
grouping jira_issue_transitioned = (jira_project, project)
grouping jira_issue_commented = (jira_project, project)
grouping jira_issue_assigned = (jira_project, project)
grouping jira_issue_unassigned = (jira_project, project)
grouping jira_issue_created = (jira_project, project)
grouping confluence_page_created = (confluence_space, space)
grouping confluence_page_edited = (confluence_space, space)
grouping confluence_comment = (confluence_space, space)
grouping git_hub_pull_request_opened = (git_hub_repo, GroupKind.repo)
grouping git_hub_pull_request_merged = (git_hub_repo, GroupKind.repo)
grouping git_hub_pull_request_closed = (git_hub_repo, GroupKind.repo)
grouping git_hub_pull_request_reviewed = (git_hub_repo, GroupKind.repo)
grouping git_hub_pull_request_commented = (git_hub_repo, GroupKind.repo)
grouping git_hub_issue_opened = (git_hub_repo, GroupKind.repo)
grouping git_hub_issue_closed = (git_hub_repo, GroupKind.repo)
grouping git_hub_issue_commented = (git_hub_repo, GroupKind.repo)
grouping git_hub_issue_assigned = (git_hub_repo, GroupKind.repo)
grouping _ = (EntityKind.repo, GroupKind.repo)

pub group_key_from_event : {V : Type 0} → ActivityEvent V → GroupKey
group_key_from_event event =
    let (entity_kind, group_kind) = grouping event.kind in entity_group event entity_kind group_kind

pub record MergeRequestArtifact : Type 0 where
  pub external_id : Text
  pub commit_shas : List Text

-- `entry(sha).or_insert(mr)`
pub or_insert : Text → Text → List (Text × Text) → List (Text × Text)
or_insert sha mr [] = (sha, mr) ∷ []
or_insert sha mr ((s, m) ∷ index) =
    let rest = or_insert sha mr index in if s == sha then (s, m) ∷ index else (s, m) ∷ rest

pub index_shas : Text → List Text → List (Text × Text) → List (Text × Text)
index_shas mr [] index = index
index_shas mr (sha ∷ shas) index = index_shas mr shas (or_insert sha mr index)

pub sha_to_mr : List MergeRequestArtifact → List (Text × Text) → List (Text × Text)
sha_to_mr [] index = index
sha_to_mr (mr ∷ mrs) index = sha_to_mr mrs (index_shas mr.external_id mr.commit_shas index)

abbrev pub has_parent : Option Text → Bool
has_parent none = false
has_parent (some parent) = true

module _ {V : Type 0} where
  abbrev pub with_parent : Option Text → ActivityEvent V → ActivityEvent V
  with_parent none event = event
  with_parent (some mr) event = record event { parent_external_id = some mr }

  pub annotate : List (Text × Text) → ActivityEvent V → ActivityEvent V
  annotate index event =
      if not (is_commit_authored event.kind)
      then event
      else if has_parent event.parent_external_id
      then event
      else with_parent (lookup event.external_id index) event

  pub annotate_rolled_into_mr :
      List (ActivityEvent V) → List MergeRequestArtifact → List (ActivityEvent V)
  annotate_rolled_into_mr events [] = events
  annotate_rolled_into_mr events (mr ∷ mrs) = map (annotate (sha_to_mr (mr ∷ mrs) [])) events
