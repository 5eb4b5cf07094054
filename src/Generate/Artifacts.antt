-- ===== src/Generate/Artifacts.antt =====
-- `collect_mr_artifacts`: the merge requests of a day's events with their commits. What
-- `metadata.get("commit_shas")` gives as an array, and each element of it as a string, is an
-- argument, since JSON is serde_json's. The B-tree map is a list in the order of its keys, which
-- are compared by their bytes, and so by their code points.
pub mod Latest
use dayseam.Prelude.{
  ◌≡◌, refl, ◌∙◌, arith, Bool, true, false, not, ◌&&◌, ◌||◌, List, [], ◌∷◌, Option, none, some,
  ◌==◌, ltb, nat_eqb, map, find, Every, ap, Bool-cases, inl, inr, if◌then◌else◌,
}
use dayseam.Prelude.Maps.{place}
use dayseam.Text.{Text, text_eq, text_eqb_iff}
use dayseam.Activity.{ActivityEvent, ActivityKind, mr_opened, mr_merged, mr_closed, mr_approved}
use dayseam.Report.{MergeRequestArtifact}

-- `matches!(event.kind, MrOpened | MrMerged | MrClosed | MrApproved)`
abbrev pub carries_commits : ActivityKind → Bool
carries_commits mr_opened = true
carries_commits mr_merged = true
carries_commits mr_closed = true
carries_commits mr_approved = true
carries_commits _ = false

-- `filter_map(|v| v.as_str())`
abbrev pub texts : List (Option Text) → List Text
texts [] = []
texts (none ∷ values) = texts values
texts (some s ∷ values) = s ∷ texts values

abbrev pub text_ltb : Text → Text → Bool
text_ltb a [] = false
text_ltb [] (d ∷ b) = true
text_ltb (c ∷ a) (d ∷ b) = ltb c d || nat_eqb c d && text_ltb a b

module _ {V : Type 0} (commit_shas : V → Option (List (Option Text))) where
  -- The commits of an event that the loop does not pass over.
  abbrev pub some_shas : List Text → Option (List Text)
  some_shas [] = none
  some_shas (sha ∷ shas) = some (sha ∷ shas)

  abbrev pub from_array : Option (List (Option Text)) → Option (List Text)
  from_array none = none
  from_array (some array) = some_shas (texts array)

  abbrev pub shas_of : ActivityEvent V → Option (List Text)
  shas_of event =
      if not (carries_commits event.kind) then none else from_array (commit_shas event.metadata)

  abbrev pub collect_one :
      ActivityEvent V
      → Option (List Text)
      → List (Text × MergeRequestArtifact)
      → List (Text × MergeRequestArtifact)
  collect_one event none by_id = by_id
  collect_one event (some shas) by_id =
      place text_ltb event.external_id
        (record { external_id = event.external_id; commit_shas = shas }) by_id

  unfoldable pub collect_from :
      List (ActivityEvent V)
      → List (Text × MergeRequestArtifact)
      → List (Text × MergeRequestArtifact)
  collect_from [] by_id = by_id
  collect_from (event ∷ events) by_id =
      collect_from events (collect_one event (shas_of event) by_id)

  abbrev pub collect_mr_artifacts : List (ActivityEvent V) → List MergeRequestArtifact
  collect_mr_artifacts events = map (λ entry. entry.1) (collect_from events [])
