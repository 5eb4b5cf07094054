-- ===== src/Rollup/Groups.antt =====
-- `roll_up`: the groups of a day's events by artifact, with the artifacts of
-- crates/dayseam-core/src/types/artifact.rs. What chrono, serde_json, uuid and the paths of the
-- standard library do is a record of arguments. A B-tree map is a list in the order of its keys.
use Prim.Native.Nat.{compare, Ordering, lt, eq, gt}
use dayseam.Prelude.{
  ℕ, zero, suc, ◌+◌, ◌/◌, ◌%◌, Bool, true, false, List, [], ◌∷◌, Option, nat_eq, ltb, if◌then◌else◌,
}
use dayseam.Text.{Text, text_eq}
use dayseam.Activity.{ActivityEvent}
use dayseam.Report.{GroupKind, repo, project, space}
use dayseam.Rollup.{ArtifactKind, MergeRequestProvider, Int64, plus, minus}

pub data ArtifactPayload : Type 0 where
  commit_set :
      (repo_path : Text)
      → (date : ℕ) → (event_ids : List ℕ) → (commit_shas : List Text) → ArtifactPayload
  jira_issue :
      (issue_key : Text)
      → (project_key : Text) → (date : ℕ) → (event_ids : List ℕ) → ArtifactPayload
  confluence_page :
      (page_id : Text) → (space_key : Text) → (date : ℕ) → (event_ids : List ℕ) → ArtifactPayload
  merge_request :
      (provider : MergeRequestProvider)
      → (number : Int64) → (project_key : Text) → (title : Text) → (url : Text) → (date : ℕ)
      → (event_ids : List ℕ) → ArtifactPayload
  meeting :
      (outlook_event_id : Text)
      → (title : Text) → (start_utc : ℕ) → (end_utc : ℕ) → (date : ℕ) → (event_ids : List ℕ)
      → ArtifactPayload

pub record Artifact : Type 0 where
  pub id : ℕ
  pub source_id : ℕ
  pub kind : ArtifactKind
  pub external_id : Text
  pub payload : ArtifactPayload
  pub created_at : ℕ

pub record RolledUpArtifact (V : Type 0) : Type 0 where
  pub artifact : Artifact
  pub events : List (ActivityEvent V)

abbrev pub event_ids : ArtifactPayload → List ℕ
event_ids (commit_set repo_path date ids commit_shas) = ids
event_ids (jira_issue issue_key project_key date ids) = ids
event_ids (confluence_page page_id space_key date ids) = ids
event_ids (merge_request provider number project_key title url date ids) = ids
event_ids (meeting outlook_event_id title start_utc end_utc date ids) = ids

abbrev pub group_kind_for_payload : ArtifactPayload → GroupKind
group_kind_for_payload (commit_set repo_path date ids commit_shas) = repo
group_kind_for_payload (jira_issue issue_key project_key date ids) = project
group_kind_for_payload (confluence_page page_id space_key date ids) = space
group_kind_for_payload (merge_request provider number project_key title url date ids) = repo
group_kind_for_payload (meeting outlook_event_id title start_utc end_utc date ids) = repo

-- What the stage uses of other libraries: `naive_local().date()`, the display of a date, midnight of
-- a date, `ArtifactId::deterministic`, the bounds in a meeting's metadata, `Utc::now`, the order of
-- paths, and the path that stands for an artifact that is no commit set.
pub record Outside (V : Type 0) : Type 0 where
  pub day_of : ℕ → ℕ
  pub show_day : ℕ → Text
  pub midnight : ℕ → ℕ
  pub deterministic : ℕ → ArtifactKind → Text → ℕ
  pub start_utc : V → Option ℕ
  pub end_utc : V → Option ℕ
  pub now : ℕ
  pub path_before : Text → Text → Bool
  pub sentinel_path : ℕ → Text
  pub epoch : ℕ

-- `Ordering::then_with`, and the order of texts by code points, as by bytes.
abbrev pub then_with : Ordering → Ordering → Ordering
then_with eq next = next
then_with lt next = lt
then_with gt next = gt

abbrev pub text_cmp : Text → Text → Ordering
text_cmp [] [] = eq
text_cmp [] (d ∷ b) = lt
text_cmp (c ∷ a) [] = gt
text_cmp (c ∷ a) (d ∷ b) = then_with (compare c d) (text_cmp a b)

abbrev pub is_after : Ordering → Bool
is_after gt = true
is_after eq = false
is_after lt = false

-- `sort_by`, which is stable.
module _ {X : Type 0} (cmp : X → X → Ordering) where
  unfoldable pub sift : X → List X → List X
  sift x [] = x ∷ []
  sift x (y ∷ ys) = let rest = sift x ys in if is_after (cmp x y) then y ∷ rest else x ∷ y ∷ ys

  unfoldable pub sort_by : List X → List X
  sort_by [] = []
  sort_by (x ∷ xs) = sift x (sort_by xs)

-- A number of at most twenty digits, as `Display` writes it.
abbrev pub decimal : ℕ → ℕ → Text → Text
decimal zero n s = s
decimal (suc rounds) n s =
    let shorter = decimal rounds (n / 10) ((b'0' + n % 10) ∷ s) in
    if ltb n 10 then (b'0' + n) ∷ s else shorter

abbrev pub show_i64 : Int64 → Text
show_i64 (plus n) = decimal 20 n []
show_i64 (minus n) = b'-' ∷ decimal 20 n []
