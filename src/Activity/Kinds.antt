-- ===== src/Activity/Kinds.antt =====
-- The list of all activity kinds.
use dayseam.Prelude.{◌≡◌, refl, Bool, filter, length}
use mathlib.Core.Bool.{decide}
use dayseam.Activity.{
  ActivityKind, all, commit_authored, mr_opened, mr_merged, mr_closed, mr_review_comment,
  mr_approved, issue_opened, issue_closed, issue_comment, jira_issue_transitioned,
  jira_issue_commented, jira_issue_assigned, jira_issue_unassigned, jira_issue_created,
  confluence_page_created, confluence_page_edited, confluence_comment, git_hub_pull_request_opened,
  git_hub_pull_request_merged, git_hub_pull_request_closed, git_hub_pull_request_reviewed,
  git_hub_pull_request_commented, git_hub_issue_opened, git_hub_issue_closed,
  git_hub_issue_commented, git_hub_issue_assigned, outlook_meeting_attended,
}

abbrev pub ActivityKind-discrete : Discrete ActivityKind
ActivityKind-discrete = hlevel

abbrev pub is_kind : ActivityKind → ActivityKind → Bool
is_kind k j = decide (ActivityKind-discrete k j)

-- Each activity kind stands in `all` just once.
pub all-once : (k : ActivityKind) → length (filter (is_kind k) all) ≡ 1
unfolding all decide
all-once commit_authored = refl
all-once mr_opened = refl
all-once mr_merged = refl
all-once mr_closed = refl
all-once mr_review_comment = refl
all-once mr_approved = refl
all-once issue_opened = refl
all-once issue_closed = refl
all-once issue_comment = refl
all-once jira_issue_transitioned = refl
all-once jira_issue_commented = refl
all-once jira_issue_assigned = refl
all-once jira_issue_unassigned = refl
all-once jira_issue_created = refl
all-once confluence_page_created = refl
all-once confluence_page_edited = refl
all-once confluence_comment = refl
all-once git_hub_pull_request_opened = refl
all-once git_hub_pull_request_merged = refl
all-once git_hub_pull_request_closed = refl
all-once git_hub_pull_request_reviewed = refl
all-once git_hub_pull_request_commented = refl
all-once git_hub_issue_opened = refl
all-once git_hub_issue_closed = refl
all-once git_hub_issue_commented = refl
all-once git_hub_issue_assigned = refl
all-once outlook_meeting_attended = refl
