-- ===== src/Report/Tests.antt =====
-- A commit, an issue and three merge requests.
use dayseam.Prelude.{ℕ, ◌≡◌, List, [], ◌∷◌, none, map}
use dayseam.Text.{codes}
use dayseam.Activity.{ActivityEvent, commit_authored, issue_opened, normal}
use dayseam.Report.{MergeRequestArtifact, annotate_rolled_into_mr}
use dayseam.Report.Tagging.{tagged, annotate_rolled_into_mr-tagged}

abbrev commit : ActivityEvent ℕ
commit = record {
  id = 1;
  source_id = 2;
  external_id = codes "abc";
  kind = commit_authored;
  occurred_at = 50;
  actor = record { display_name = codes "A"; email = none; external_id = none };
  title = codes "fix";
  body = none;
  links = [];
  entities = [];
  parent_external_id = none;
  metadata = 0;
  raw_ref = record { storage_key = codes "k"; content_type = codes "t" };
  privacy = normal;
}

abbrev events : List (ActivityEvent ℕ)
events = commit ∷ record commit { kind = issue_opened } ∷ []

abbrev requests : List MergeRequestArtifact
requests =
    record { external_id = codes "!1"; commit_shas = codes "xyz" ∷ [] }
    ∷ record { external_id = codes "!2"; commit_shas = codes "abc" ∷ [] }
    ∷ record { external_id = codes "!3"; commit_shas = codes "abc" ∷ [] }
    ∷ []

annotate_rolled_into_mr-tagged_example :
    annotate_rolled_into_mr events requests ≡ map (tagged requests) events
annotate_rolled_into_mr-tagged_example = annotate_rolled_into_mr-tagged events requests
