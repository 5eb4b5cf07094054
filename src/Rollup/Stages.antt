-- ===== src/Rollup/Stages.antt =====
-- `roll_up` and its stages: the claims of the artifacts, the buckets of the orphans, the merge of
-- commit sets, and the order of the groups.
use Prim.Native.Nat.{compare, Ordering}
use dayseam.Prelude.{
  ℕ, ◌&&◌, List, [], ◌∷◌, ◌++◌, Option, none, some, Eq, ◌==◌, nat_eq, nat_eqb, ltb, contains,
  if◌then◌else◌, nat_eqb_iff, arith,
}
use dayseam.Prelude.Maps.{lookup, insert, remove, place}
use dayseam.Text.{Text, text_eq, text_eqb_iff}
use dayseam.Activity.{ActivityEvent}
use dayseam.Rollup.{OrphanKey, orphan_key, kind_token}
use dayseam.Rollup.Groups.{
  ArtifactPayload, Artifact, RolledUpArtifact, Outside, event_ids, then_with, text_cmp, sort_by,
}
use dayseam.Rollup.Synthesis.{orphan_key_eq, orphan_cmp, is_before, synthesize_artifact, unwrap_or}

-- The path and the day of a commit set.
pub record SetKey : Type 0 where
  pub path : Text
  pub day : ℕ

instance abbrev pub set_key_eq : Eq SetKey
set_key_eq = record {
  beq = λ a b. a.path == b.path && nat_eqb a.day b.day;
  beq_iff = λ a b. ground (arith, text_eqb_iff a.path b.path, nat_eqb_iff a.day b.day);
}

abbrev pub commit_set_key : ArtifactPayload → Option SetKey
commit_set_key (ArtifactPayload.commit_set repo_path date ids commit_shas) =
    some (record { path = repo_path; day = date })
commit_set_key (ArtifactPayload.jira_issue issue_key project_key date ids) = none
commit_set_key (ArtifactPayload.confluence_page page_id space_key date ids) = none
commit_set_key (ArtifactPayload.merge_request provider number project_key title url date ids) = none
commit_set_key (ArtifactPayload.meeting event_id title start_utc end_utc date ids) = none

abbrev pub start_cmp : ArtifactPayload → ArtifactPayload → Ordering → Ordering
start_cmp (ArtifactPayload.meeting i t a_start e d ids) (ArtifactPayload.meeting j u b_start f c k)
      otherwise =
    compare a_start b_start
start_cmp a b otherwise = otherwise

module _ {V : Type 0} where
  abbrev pub event_cmp : ActivityEvent V → ActivityEvent V → Ordering
  event_cmp a b =
      then_with (compare a.occurred_at b.occurred_at)
        (then_with (text_cmp a.external_id b.external_id) (compare a.id b.id))

  unfoldable pub sort_events : List (ActivityEvent V) → List (ActivityEvent V)
  sort_events = sort_by event_cmp

  abbrev pub group_cmp : RolledUpArtifact V → RolledUpArtifact V → Ordering
  group_cmp a b = then_with (text_cmp (kind_token a.artifact.kind) (kind_token b.artifact.kind)) (
      then_with
        (start_cmp a.artifact.payload b.artifact.payload
          (text_cmp a.artifact.external_id b.artifact.external_id))
        (compare a.artifact.id b.artifact.id))

  unfoldable pub sort_groups : List (RolledUpArtifact V) → List (RolledUpArtifact V)
  sort_groups = sort_by group_cmp

  -- `events.iter().map(|e| (e.id, e)).collect()`
  unfoldable pub event_by_id :
      List (ActivityEvent V) → List (ℕ × ActivityEvent V) → List (ℕ × ActivityEvent V)
  event_by_id [] by_id = by_id
  event_by_id (event ∷ events) by_id = event_by_id events (place ltb event.id event by_id)

  abbrev pub put_first :
      Option (ActivityEvent V)
      → List (ActivityEvent V) × List (ℕ × ActivityEvent V)
      → List (ActivityEvent V) × List (ℕ × ActivityEvent V)
  put_first none claimed = claimed
  put_first (some event) (events, by_id) = (event ∷ events, by_id)

  -- The events of the identifiers, and the map without them.
  unfoldable pub claim :
      List ℕ → List (ℕ × ActivityEvent V) → List (ActivityEvent V) × List (ℕ × ActivityEvent V)
  claim [] by_id = ([], by_id)
  claim (id ∷ ids) by_id = put_first (lookup id by_id) (claim ids (remove id by_id))

  -- The loop over the artifacts: their groups, and what no artifact claims.
  unfoldable pub claim_all :
      List Artifact
      → List (ℕ × ActivityEvent V)
      → List (RolledUpArtifact V) × List (ℕ × ActivityEvent V)
  claim_all [] by_id = ([], by_id)
  claim_all (artifact ∷ artifacts) by_id =
      let claimed = claim (event_ids artifact.payload) by_id in
      let others = claim_all artifacts claimed.1 in
      (record { artifact = artifact; events = sort_events claimed.0 } ∷ others.0, others.1)

  -- `seen.insert(external_id)`, which tells whether it was new, and the push.
  unfoldable pub extend_unseen :
      List Text → List (ActivityEvent V) → List (ActivityEvent V) → List (ActivityEvent V)
  extend_unseen seen events [] = events
  extend_unseen seen events (event ∷ more) =
      if contains seen event.external_id
      then extend_unseen seen events more
      else extend_unseen (event.external_id ∷ seen) (events ++ (event ∷ [])) more

  abbrev pub external_ids : List (ActivityEvent V) → List Text
  external_ids [] = []
  external_ids (event ∷ events) = event.external_id ∷ external_ids events

  abbrev pub merged_into : RolledUpArtifact V → RolledUpArtifact V → RolledUpArtifact V
  merged_into existing group = record existing {
    events =
        sort_events (extend_unseen (external_ids existing.events) existing.events group.events);
  }

-- The variables of `merge_duplicate_commit_sets`.
pub record Merging (V : Type 0) : Type 0 where
  pub by_key : List (SetKey × RolledUpArtifact V)
  pub order : List SetKey

module _ {V : Type 0} (std : Outside V) where
  abbrev pub sentinel : ℕ → SetKey
  sentinel id = record { path = std.sentinel_path id; day = std.epoch }

  abbrev pub add_set :
      Merging V → RolledUpArtifact V → SetKey → Option (RolledUpArtifact V) → Merging V
  add_set s group key none = record {
    by_key = insert key group s.by_key;
    order = s.order ++ (key ∷ []);
  }
  add_set s group key (some existing) = record s {
    by_key = insert key (merged_into existing group) s.by_key;
  }

  abbrev pub add_keyed : Merging V → RolledUpArtifact V → Option SetKey → Merging V
  add_keyed s group (some key) = add_set s group key (lookup key s.by_key)
  add_keyed s group none =
      let key = sentinel group.artifact.id in
      record { by_key = insert key group s.by_key; order = s.order ++ (key ∷ []) }

  abbrev pub add_group : Merging V → RolledUpArtifact V → Merging V
  add_group s group = add_keyed s group (commit_set_key group.artifact.payload)

  unfoldable pub add_groups : Merging V → List (RolledUpArtifact V) → Merging V
  add_groups s [] = s
  add_groups s (group ∷ groups) = add_groups (add_group s group) groups

  abbrev put_group :
      Option (RolledUpArtifact V) → List (RolledUpArtifact V) → List (RolledUpArtifact V)
  put_group none groups = groups
  put_group (some group) groups = group ∷ groups

  -- `order.into_iter().filter_map(|k| by_key.remove(&k))`
  unfoldable pub in_order :
      List SetKey → List (SetKey × RolledUpArtifact V) → List (RolledUpArtifact V)
  in_order [] by_key = []
  in_order (key ∷ order) by_key = put_group (lookup key by_key) (in_order order (remove key by_key))

  unfoldable pub merge_duplicate_commit_sets : List (RolledUpArtifact V) → List (RolledUpArtifact V)
  unfolding add_groups in_order
  merge_duplicate_commit_sets groups =
      let s = add_groups (record { by_key = []; order = [] }) groups in in_order s.order s.by_key

  unfoldable pub bucket :
      List (ℕ × ActivityEvent V)
      → List (OrphanKey × List (ActivityEvent V))
      → List (OrphanKey × List (ActivityEvent V))
  bucket [] by_key = by_key
  bucket ((id, event) ∷ orphans) by_key =
      let key = orphan_key std.day_of event in
      bucket orphans (
        place (λ a b. is_before (orphan_cmp std.path_before a b)) key
          (unwrap_or (lookup key by_key) [] ++ (event ∷ [])) by_key)

  unfoldable pub synthesize_all :
      ℕ → List (OrphanKey × List (ActivityEvent V)) → List (RolledUpArtifact V)
  synthesize_all report_date [] = []
  synthesize_all report_date ((key, orphan_events) ∷ buckets) =
      let events = sort_events orphan_events in
      record { artifact = synthesize_artifact std key events report_date; events = events }
      ∷ synthesize_all report_date buckets

  -- The groups before the merge: those of the artifacts, and those of the orphans.
  unfoldable pub group_all : List (ActivityEvent V) → List Artifact → ℕ → List (RolledUpArtifact V)
  unfolding event_by_id claim claim_all bucket synthesize_all
  group_all events artifacts report_date =
      let claimed = claim_all artifacts (event_by_id events []) in
      claimed.0 ++ synthesize_all report_date (bucket claimed.1 [])

  unfoldable pub roll_up : List (ActivityEvent V) → List Artifact → ℕ → List (RolledUpArtifact V)
  unfolding group_all merge_duplicate_commit_sets
  roll_up events artifacts report_date =
      sort_groups (merge_duplicate_commit_sets (group_all events artifacts report_date))
