-- ===== src/Generate/Artifacts/Latest.antt =====
-- Which event's commits a merge request is given.
use dayseam.Prelude.{◌≡◌, Bool, List, [], ◌∷◌, Option, none, some, ◌==◌, map, if◌then◌else◌}
use dayseam.Text.{Text, text_eq}
use dayseam.Activity.{ActivityEvent}
use dayseam.Report.{MergeRequestArtifact}
use dayseam.Generate.Artifacts.{shas_of}

-- The last event of a merge request that has commits says what they are.
abbrev pub last_of :
    Option MergeRequestArtifact → Option MergeRequestArtifact → Option MergeRequestArtifact
last_of none further = further
last_of (some mr) further = some mr

abbrev IsNamed : Text × MergeRequestArtifact → Type 0
IsNamed (key, mr) = mr.external_id ≡ key

abbrev values : List (Text × MergeRequestArtifact) → List MergeRequestArtifact
values = map (λ entry. entry.1)

abbrev is_of : Text → MergeRequestArtifact → Bool
is_of sought mr = mr.external_id == sought

module _ {V : Type 0} (commit_shas : V → Option (List (Option Text))) where
  abbrev pub told_by : Text → ActivityEvent V → Option (List Text) → Option MergeRequestArtifact
  told_by sought event none = none
  told_by sought event (some shas) =
      if event.external_id == sought
      then some (record { external_id = event.external_id; commit_shas = shas })
      else none

  abbrev pub latest : Text → List (ActivityEvent V) → Option MergeRequestArtifact
  latest sought [] = none
  latest sought (event ∷ events) =
      last_of (latest sought events) (told_by sought event (shas_of commit_shas event))
