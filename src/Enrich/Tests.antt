-- ===== src/Enrich/Tests.antt =====
-- A merge request that names an issue and a pull request, and the issue's transition an hour later.
use mathlib.Core.Bool.{decide}
use dayseam.Prelude.{ℕ, ◌*◌, ◌^◌, ◌≡◌, refl, List, [], ◌∷◌, none, some, map}
use dayseam.Text.{codes, strip_prefix}
use dayseam.Activity.{ActivityEvent, EntityKind, mr_opened, jira_issue_transitioned, normal}
use dayseam.Enrich.{scan_ticket_keys, ticket_rounds}
use dayseam.Enrich.Links.{
  scan_github_pr_urls, pr_rounds, annotate_transition_with_mr, annotate_one, pipeline,
}
use dayseam.Enrich.Windows.{naming}
use dayseam.Enrich.Triggers.{AllLinked, annotate_transition_with_mr-AllLinked}
use dayseam.Enrich.Settled.{pipeline_idem}

-- The key needs a boundary on both sides, and two to ten letters.
keys_found :
    scan_ticket_keys (codes "(CAR-5117): xAB-1 A-2 CAR-7a AB-3")
    ≡ codes "CAR-5117" ∷ codes "AB-3" ∷ []
unfolding ticket_rounds
keys_found = refl

pr_found :
    scan_github_pr_urls (codes "see https://github.com/org/app/pull/42 and x/y/pull/1")
    ≡ record { external_id = codes "app#42"; label = codes "#42" } ∷ []
unfolding pr_rounds strip_prefix
pr_found = refl

abbrev opened : ActivityEvent ℕ
opened = record {
  id = 1;
  source_id = 2;
  external_id = codes "!42";
  kind = mr_opened;
  occurred_at = 10 ^ 9;
  actor = record { display_name = codes "A"; email = none; external_id = none };
  title = codes "CAR-5 fix";
  body = none;
  links = [];
  entities =
      record { kind = EntityKind.jira_issue; external_id = codes "CAR-5"; label = none } ∷ [];
  parent_external_id = none;
  metadata = 0;
  raw_ref = record { storage_key = codes "k"; content_type = codes "t" };
  privacy = normal;
}

abbrev moved : ActivityEvent ℕ
moved = record opened {
  id = 3;
  external_id = codes "CAR-5:1";
  kind = jira_issue_transitioned;
  occurred_at = 3601 * 10 ^ 9;
}

annotate_transition_with_mr-AllLinked_example :
    AllLinked
      (moved ∷ opened ∷ [])
      (moved ∷ opened ∷ [])
      (annotate_transition_with_mr (moved ∷ opened ∷ []))
annotate_transition_with_mr-AllLinked_example =
    annotate_transition_with_mr-AllLinked (moved ∷ opened ∷ [])

linked :
    map (annotate_one (naming (moved ∷ opened ∷ []))) (moved ∷ opened ∷ [])
    ≡ record moved { parent_external_id = some (codes "!42") } ∷ opened ∷ []
unfolding decide
linked = refl

pipeline_idem_example :
    (out : List (ActivityEvent ℕ)) × (pipeline (moved ∷ opened ∷ moved ∷ []) [] ≡ some out)
    × (pipeline out [] ≡ some out)
pipeline_idem_example = pipeline_idem (moved ∷ opened ∷ moved ∷ []) []
