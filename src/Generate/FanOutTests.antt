-- ===== src/Generate/FanOutTests.antt =====
-- Two sources, one of which fails, and the commits of a merge request that two events tell of.
use dayseam.Prelude.{ℕ, ◌≡◌, refl, arith, List, [], ◌∷◌, Option, none, some, length}
use dayseam.Prelude.Results.{ok, err}
use dayseam.Text.{Text, codes, text_eq}
use dayseam.Activity.{ActivityEvent, mr_opened, mr_merged, normal}
use dayseam.Generate.{PerSourceResult, split_fan_out}
use dayseam.Generate.Counts.{total_fetched, split_fan_out-count}
use dayseam.Generate.Artifacts.Latest.{latest}

-- JSON metadata is the array itself here.
abbrev event : ActivityEvent (List (Option Text))
event = record {
  id = 1;
  source_id = 4;
  external_id = codes "!7";
  kind = mr_opened;
  occurred_at = 10;
  actor = record { display_name = []; email = none; external_id = none };
  title = [];
  body = none;
  links = [];
  entities = [];
  parent_external_id = none;
  metadata = some (codes "aa") ∷ [];
  raw_ref = record { storage_key = []; content_type = [] };
  privacy = normal;
}

abbrev merged : ActivityEvent (List (Option Text))
merged = record event {
  kind = mr_merged;
  metadata = some (codes "aa") ∷ none ∷ some (codes "bb") ∷ [];
}

merged_wins :
    latest some (codes "!7") (event ∷ merged ∷ [])
    ≡ some (record { external_id = codes "!7"; commit_shas = codes "aa" ∷ codes "bb" ∷ [] })
merged_wins = refl

abbrev per_source : List (PerSourceResult (List (Option Text)) ℕ ℕ)
per_source =
    record {
      source_id = 4;
      started_at = 20;
      finished_at = 22;
      outcome = ok (record { events = event ∷ merged ∷ []; artifacts = [] });
    }
    ∷ record { source_id = 5; started_at = 20; finished_at = 21; outcome = err 9 }
    ∷ []

split_fan_out-count_example :
    total_fetched (split_fan_out per_source).per_source_syncrun
    ≡ length (split_fan_out per_source).events
split_fan_out-count_example = split_fan_out-count per_source (omega arith, (omega arith, tt))
