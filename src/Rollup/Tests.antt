-- ===== src/Rollup/Tests.antt =====
-- The approval of merge request 42.
use dayseam.Prelude.{ℕ, ◌/◌, ◌≡◌, ◌↔◌, [], ◌∷◌, none}
use dayseam.Text.{codes}
use dayseam.Activity.{ActivityEvent, EntityKind, mr_approved, normal}
use dayseam.Rollup.{orphan_key, merge_request, git_lab, plus}
use dayseam.Rollup.Requests.{Names, orphan_key-merge_request}

abbrev approved : ActivityEvent ℕ
approved = record {
  id = 1;
  source_id = 2;
  external_id = codes "!42";
  kind = mr_approved;
  occurred_at = 250;
  actor = record { display_name = codes "A"; email = none; external_id = none };
  title = codes "Approved MR: fix";
  body = none;
  links = [];
  entities = record { kind = EntityKind.repo; external_id = codes "team/app"; label = none } ∷ [];
  parent_external_id = none;
  metadata = 0;
  raw_ref = record { storage_key = codes "k"; content_type = codes "t" };
  privacy = normal;
}

orphan_key-merge_request_example :
    (orphan_key (λ t. t / 100) approved ≡ merge_request 2 git_lab (codes "team/app") (plus 42) 2)
    ↔ (Names git_lab approved (codes "team/app") (plus 42)
        × (◌≡◌ {A = ℕ} 2 2)
        × (◌≡◌ {A = ℕ} (250 / 100) 2))
orphan_key-merge_request_example =
    orphan_key-merge_request (λ t. t / 100) approved 2 git_lab (codes "team/app") (plus 42) 2
