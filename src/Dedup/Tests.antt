-- ===== src/Dedup/Tests.antt =====
-- Two sources that report one commit, and an event that is no commit.
use dayseam.Prelude.{
  ℕ, ◌≡◌, ◌↔◌, inl, arith, ◌||◌, List, [], ◌∷◌, none, some, any, contains, filter,
}
use dayseam.Text.{Text, codes}
use dayseam.Activity.{
  is_commit_authored, ActivityEvent, EntityRef, Link, commit_authored, issue_opened, normal,
  redacted_private_repo, repo, link_eq, entity_ref_eq,
}
use dayseam.Dedup.{dedup_commit_authored, merge_two, body_rank}
use dayseam.Dedup.Reference.{absorb, absorb_all, commits, others}
use dayseam.Dedup.Refines.{dedup_commit_authored-absorb_all}
use dayseam.Dedup.Shas.{private_commits, IsDistinct, dedup_commit_authored_keeps}
use dayseam.Dedup.Survivor.{merge_two_survivor, merge_two_keeps}

abbrev local : ActivityEvent ℕ
local = record {
  id = 1;
  source_id = 2;
  external_id = codes "abc";
  kind = commit_authored;
  occurred_at = 50;
  actor = record { display_name = codes "A"; email = some (codes "a@b"); external_id = none };
  title = codes "fix";
  body = none;
  links = [];
  entities = record { kind = repo; external_id = codes "/r"; label = none } ∷ [];
  parent_external_id = none;
  metadata = 0;
  raw_ref = record { storage_key = codes "k"; content_type = codes "t" };
  privacy = redacted_private_repo;
}

abbrev remote : ActivityEvent ℕ
remote = record local {
  id = 4;
  source_id = 9;
  body = some (codes "why");
  links = record { url = codes "u"; label = none } ∷ [];
  entities = [];
  actor = record { display_name = codes "A"; email = none; external_id = none };
  privacy = normal;
}

abbrev issue : ActivityEvent ℕ
issue = record local { id = 7; kind = issue_opened }

abbrev events : List (ActivityEvent ℕ)
events = local ∷ issue ∷ remote ∷ []

dedup_commit_authored-absorb_all_example :
    dedup_commit_authored events ≡ some (absorb_all [] events)
dedup_commit_authored-absorb_all_example = dedup_commit_authored-absorb_all events

abbrev kept : List (ActivityEvent ℕ)
kept = merge_two local remote ∷ issue ∷ []

ran : dedup_commit_authored events ≡ some kept
unfolding absorb_all absorb is_commit_authored
ran = dedup_commit_authored-absorb_all events

dedup_commit_authored_keeps_example :
    ((sha : Text) → any (commits sha) kept ≡ any (commits sha) events)
    × ((sha : Text) → any (private_commits sha) kept ≡ any (private_commits sha) events)
    × IsDistinct kept
    × (filter others kept ≡ filter others events)
dedup_commit_authored_keeps_example = dedup_commit_authored_keeps events kept ran

merge_two_survivor_example :
    (merge_two local remote ≡ merge_two remote local)
    × (merge_two remote local ≡ record remote {
      links = (merge_two remote local).links;
      entities = (merge_two remote local).entities;
      privacy = (merge_two remote local).privacy;
      actor = (merge_two remote local).actor;
    })
unfolding body_rank
merge_two_survivor_example = merge_two_survivor remote local (inl (omega arith))

abbrev link : Link
link = record { url = codes "u"; label = none }

abbrev entity : EntityRef
entity = record { kind = repo; external_id = codes "/r"; label = none }

merge_two_keeps_example :
    (contains (merge_two remote local).links link
      ≡ (contains remote.links link || contains local.links link))
    × (contains (merge_two remote local).entities entity
        ≡ (contains remote.entities entity || contains local.entities entity))
    × (((merge_two remote local).privacy ≡ normal)
        ↔ ((remote.privacy ≡ normal) × (local.privacy ≡ normal)))
    × ((merge_two remote local).actor
        ≡ record { display_name = codes "A"; email = some (codes "a@b"); external_id = none })
unfolding body_rank
merge_two_keeps_example = merge_two_keeps remote local link entity (inl (omega arith))
