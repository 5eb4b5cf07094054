-- ===== src/Activity/Tests.antt =====
-- A kind of the first release, and a text that names none.
use dayseam.Prelude.{◌≡◌, refl, length, filter}
use dayseam.Text.{codes}
use dayseam.Activity.{git_hub_repo, as_str, from_str, all, issue_opened}
use dayseam.Activity.Kinds.{is_kind, all-once}
use dayseam.Activity.RoundTrip.{as_str-from_str}

as_str-from_str_example :
    (from_str (as_str git_hub_repo) ≡ git_hub_repo)
    × (as_str (from_str (codes "jira_issue")) ≡ codes "jira_issue")
as_str-from_str_example = as_str-from_str git_hub_repo (codes "jira_issue") refl

all-once_example : length (filter (is_kind issue_opened) all) ≡ 1
all-once_example = all-once issue_opened
