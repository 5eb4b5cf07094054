-- ===== src/Rollup/GroupTests.antt =====
-- A day with a meeting, and two commits of one repository that the artifacts of two sources claim.
use dayseam.Prelude.{ℕ, ◌+◌, ◌/◌, ◌≡◌, refl, true, false, List, [], ◌∷◌, none, ltb, length}
use mathlib.Core.Bool.{decide}
use dayseam.Prelude.Maps.{lookup, insert, remove, place}
use dayseam.Text.{codes}
use dayseam.Activity.{ActivityEvent, EntityKind, outlook_meeting_attended, commit_authored, normal}
use dayseam.Rollup
use dayseam.Rollup.{ArtifactKind}
use dayseam.Rollup.Groups.{RolledUpArtifact, Artifact, ArtifactPayload, Outside}
use dayseam.Rollup.Synthesis.{synthesize_artifact}
use dayseam.Rollup.Stages.{
  add_groups, in_order, merge_duplicate_commit_sets, group_all, roll_up, event_by_id, claim,
  claim_all, bucket, synthesize_all,
}
use dayseam.Rollup.Told.{mentions}
use dayseam.Rollup.Merge.{IsApart}
use dayseam.Rollup.Ordered.{IsOrdered}
use dayseam.Rollup.Fitting.{roll_up-IsOrdered}
use dayseam.Rollup.Kept.{roll_up-mentions}

abbrev attended : ActivityEvent ℕ
attended = record {
  id = 1;
  source_id = 2;
  external_id = codes "m1";
  kind = outlook_meeting_attended;
  occurred_at = 250;
  actor = record { display_name = codes "A"; email = none; external_id = none };
  title = codes "Stand-up";
  body = none;
  links = [];
  entities = record { kind = EntityKind.repo; external_id = codes "team/app"; label = none } ∷ [];
  parent_external_id = none;
  metadata = 0;
  raw_ref = record { storage_key = codes "k"; content_type = codes "t" };
  privacy = normal;
}

abbrev commit : ActivityEvent ℕ
commit = record attended { id = 5; kind = commit_authored; external_id = codes "aa" }

abbrev other_commit : ActivityEvent ℕ
other_commit = record commit { id = 6; source_id = 3; external_id = codes "bb" }

abbrev std : Outside ℕ
std = record {
  day_of = λ t. t / 100;
  show_day = λ day. codes "d";
  midnight = λ day. day;
  deterministic = λ source_id kind external_id. source_id + length external_id;
  start_utc = λ metadata. none;
  end_utc = λ metadata. none;
  now = 0;
  path_before = λ a b. ltb (length a) (length b);
  sentinel_path = λ id. codes "__non_commit_set__";
  epoch = 0;
}

abbrev claimer : Artifact
claimer = record {
  id = 70;
  source_id = 2;
  kind = ArtifactKind.commit_set;
  external_id = codes "team/app";
  payload = ArtifactPayload.commit_set (codes "team/app") 2 (5 ∷ []) (codes "aa" ∷ []);
  created_at = 0;
}

abbrev other_claimer : Artifact
other_claimer = record claimer {
  id = 71;
  source_id = 3;
  payload = ArtifactPayload.commit_set (codes "team/app") 2 (6 ∷ []) (codes "bb" ∷ []);
}

abbrev artifacts : List Artifact
artifacts = claimer ∷ other_claimer ∷ []

abbrev day : List (ActivityEvent ℕ)
day = attended ∷ commit ∷ other_commit ∷ []

day-IsApart : IsApart std [] (group_all std day artifacts 2)
unfolding group_all event_by_id claim claim_all bucket synthesize_all lookup remove place
    synthesize_artifact Rollup.orphan_key Rollup.key_by Rollup.shape decide
day-IsApart = (tt, (tt, (refl, tt)))

roll_up-mentions_example : mentions (codes "bb") (roll_up std day artifacts 2) ≡ true
roll_up-mentions_example = roll_up-mentions std 6 other_commit day artifacts 2 refl day-IsApart

-- Two groups that are no commit sets and have one artifact identifier: the second takes the place of
-- the first, whose events are gone.
abbrev meeting_of : ActivityEvent ℕ → RolledUpArtifact ℕ
meeting_of event = record {
  artifact = record claimer {
    id = 80;
    kind = ArtifactKind.outlook_meeting;
    payload = ArtifactPayload.meeting (codes "m") [] 1 2 2 (event.id ∷ []);
  };
  events = event ∷ [];
}

first_group_lost :
    mentions
      (codes "aa")
      (merge_duplicate_commit_sets std (meeting_of commit ∷ meeting_of other_commit ∷ []))
    ≡ false
unfolding merge_duplicate_commit_sets add_groups in_order lookup insert remove
first_group_lost = refl

roll_up-IsOrdered_example : IsOrdered (roll_up std day artifacts 2)
roll_up-IsOrdered_example = roll_up-IsOrdered std day artifacts 2 (refl, (refl, tt))
