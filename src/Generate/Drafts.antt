-- ===== src/Generate/Drafts.antt =====
-- The drafts that the runs leave on disk, in every world that runs, users and the database lead to.
use dayseam.Prelude.{
  ℕ, ◌≡◌, refl, ◌∙◌, ap, arith, Bool, true, false, List, [], ◌∷◌, ◌++◌, Option, none, some, any,
  nat_eqb, nat_eqb_iff, if◌then◌else◌, Bool-cases, inl, inr,
}
use dayseam.Prelude.Results.{Result, ok, err}
use dayseam.Runs.{PerSourceState, SyncRunStatus, completed, running, cancelled, failed}
use dayseam.SyncRuns.{DbError}
use dayseam.Generate.{GenerateOutcome, has_run}
use dayseam.Generate.World.{
  Stage, idle, swapped, signalled, rejected, recorded, spawned, fetched, stopped, cancelling,
  collected, stored, cleared, drafted, failing, ending, over, World, Answer, Engine,
  GenerateRequest, either, is_nil, attempt, insert_draft, write_draft, DraftRow,
}
use dayseam.Generate.Machine.{
  Move, resume, cancel, signal, Reach, here, there, move, advance, guard,
}

-- The drafts that an outcome announces.
abbrev pub announced : SyncRunStatus → Option ℕ → List ℕ
announced completed (some draft_id) = draft_id ∷ []
announced completed none = []
announced running draft_id = []
announced cancelled draft_id = []
announced failed draft_id = []

-- The drafts of a run at a stage.
abbrev pub produced : {V A E D : Type 0} → Stage V A E D → List ℕ
produced (drafted draft_id sources) = draft_id ∷ []
produced (ending outcome) = announced outcome.status outcome.draft_id
produced (over outcome) = announced outcome.status outcome.draft_id
produced _ = []

-- The drafts in the table whose `sync_run_id` is the run.
abbrev pub drafts_of : {D : Type 0} → ℕ → List (DraftRow D) → List ℕ
drafts_of id [] = []
drafts_of id (row ∷ rows) =
    let rest = drafts_of id rows in if nat_eqb id row.sync_run_id then row.id ∷ rest else rest

produced-either :
    {V A E D X : Type 0} (answered : Result DbError X) (after refused : Stage V A E D)
    (ids old : List ℕ)
    → ids ≡ produced after ++ old
    → ids ≡ produced refused ++ old
    → ids ≡ produced (either answered after refused) ++ old
unfolding either
produced-either (ok done) after refused ids old a r = a
produced-either (err e) after refused ids old a r = r

module _ {V A E D : Type 0} (engine : Engine V A E D) (requests : ℕ → GenerateRequest)
    (old : ℕ → List ℕ) where
  abbrev IsPublished : List (DraftRow D) → (ℕ → Stage V A E D) → Type 0
  IsPublished rows stage = (j : ℕ) → drafts_of j rows ≡ produced (stage j) ++ old j

  keeps :
      (id : ℕ) (after : Stage V A E D) (rows : List (DraftRow D)) (stage : ℕ → Stage V A E D)
      → drafts_of id rows ≡ produced after ++ old id
      → IsPublished rows stage
      → IsPublished rows (λ j. if nat_eqb j id then after else stage j)
  keeps id after rows stage held published j = ground (arith, nat_eqb_iff j id, published j)

  writes :
      (id draft_id : ℕ) (draft : D) (sources : List (PerSourceState E)) (available : Bool)
      (w : World V A E D)
      → drafts_of id w.report_drafts ≡ old id
      → IsPublished w.report_drafts w.stage
      → let row : DraftRow D = record { id = draft_id; draft = draft; sync_run_id = id } in
        let written =
          write_draft id
            (drafted draft_id sources)
            (failing sources)
            (attempt available (insert_draft row) w.report_drafts)
            w in
        IsPublished written.report_drafts written.stage
  unfolding either
  writes id draft_id draft sources false w none_yet published =
      keeps id _ w.report_drafts w.stage none_yet published
  writes id draft_id draft sources true w none_yet published =
      elim (Bool-cases (any (λ other. nat_eqb other.id draft_id) w.report_drafts)) [
        | inl known ↦ rw known (keeps id _ w.report_drafts w.stage none_yet published)
        | inr fresh ↦ rw fresh (λ j. ground (arith, nat_eqb_iff j id, published j))
      ]

  guard-IsPublished :
      (id draft_id : ℕ) (sources : List (PerSourceState E)) (other : Option ℕ)
      (rendered : Result E D) (w : World V A E D)
      → drafts_of id w.report_drafts ≡ old id
      → IsPublished w.report_drafts w.stage
      → IsPublished
          (guard id draft_id sources other rendered w).report_drafts
          (guard id draft_id sources other rendered w).stage
  guard-IsPublished id draft_id sources other (err e) w held published =
      keeps id _ w.report_drafts w.stage held published
  guard-IsPublished id draft_id sources none (ok draft) w held published =
      keeps id _ w.report_drafts w.stage held published
  guard-IsPublished id draft_id sources (some n) (ok draft) w held published =
      keeps id _ w.report_drafts w.stage held published

  advance-IsPublished :
      (id : ℕ) (answer : Answer V A E) (at : Stage V A E D) (w : World V A E D)
      → drafts_of id w.report_drafts ≡ produced at ++ old id
      → IsPublished w.report_drafts w.stage
      → IsPublished
          (advance engine requests id answer at w).report_drafts
          (advance engine requests id answer at w).stage
  unfolding advance
  advance-IsPublished id answer idle w held published =
      keeps id _ w.report_drafts w.stage held published
  advance-IsPublished id answer (swapped prior) w held published =
      keeps id _ w.report_drafts w.stage held published
  advance-IsPublished id answer (signalled prior) w held published =
      keeps id _ w.report_drafts w.stage (produced-either _ _ _ _ _ held held) published
  advance-IsPublished id answer rejected w held published =
      keeps id _ w.report_drafts w.stage held published
  advance-IsPublished id answer (recorded none) w held published =
      keeps id _ w.report_drafts w.stage held published
  advance-IsPublished id answer (recorded (some prior)) w held published =
      keeps id _ w.report_drafts w.stage held published
  advance-IsPublished id answer spawned w held published =
      keeps id _ w.report_drafts w.stage held published
  advance-IsPublished id answer (fetched per_source) w held published =
      elim (Bool-cases (w.fired id)) [
        | inl stops ↦ rw stops (keeps id _ w.report_drafts w.stage held published)
        | inr goes ↦ rw goes (keeps id _ w.report_drafts w.stage held published)
      ]
  advance-IsPublished id answer (stopped per_source) w held published =
      keeps id _ w.report_drafts w.stage held published
  advance-IsPublished id answer (cancelling per_source none) w held published =
      keeps id _ w.report_drafts w.stage held published
  advance-IsPublished id answer (cancelling per_source (some n)) w held published =
      keeps id _ w.report_drafts w.stage held published
  advance-IsPublished id answer (collected split) w held published =
      elim (Bool-cases (is_nil split.events)) [
        | inl nothing ↦ rw nothing (keeps id _ w.report_drafts w.stage held published)
        | inr events ↦
            rw events
              (keeps id _ w.report_drafts w.stage (produced-either _ _ _ _ _ held held) published)
      ]
  advance-IsPublished id answer (stored split) w held published =
      guard-IsPublished id answer.draft_id split.per_source_syncrun _ _ w held published
  advance-IsPublished id answer (cleared draft_id draft sources) w held published =
      writes id draft_id draft sources answer.available w held published
  advance-IsPublished id answer (drafted draft_id sources) w held published =
      keeps id _ w.report_drafts w.stage held published
  advance-IsPublished id answer (failing sources) w held published =
      keeps id _ w.report_drafts w.stage held published
  advance-IsPublished id answer (ending outcome) w held published =
      keeps id _ w.report_drafts w.stage held published
  advance-IsPublished id answer (over outcome) w held published = published

  move-IsPublished :
      (m : Move V A E) (w : World V A E D)
      → IsPublished w.report_drafts w.stage
      → IsPublished (move engine requests m w).report_drafts (move engine requests m w).stage
  unfolding move
  move-IsPublished (resume id answer) w published =
      advance-IsPublished id answer (w.stage id) w (published id) published
  move-IsPublished (signal id) w published = published
  move-IsPublished (cancel id) w published = elim (Bool-cases (has_run id w.in_flight)) [
    | inl known ↦ rw known published
    | inr unknown ↦ rw unknown published
  ]

  Reach-IsPublished :
      {Allowed : World V A E D → Move V A E → Type 0} {start w : World V A E D}
      → IsPublished start.report_drafts start.stage
      → Reach engine requests Allowed start w
      → IsPublished w.report_drafts w.stage
  Reach-IsPublished published here = published
  Reach-IsPublished published (there before m allowed) =
      move-IsPublished m _ (Reach-IsPublished published before)

-- From a world in which no run has begun, whatever moves runs and users make, whether or not the
-- database answers: the drafts on disk of a run that is over are the one that a `Completed` outcome
-- names, and none for a `Cancelled` or `Failed` one, besides those of its identifier that the table
-- had before.
pub over-drafts :
    {V A E D : Type 0} (engine : Engine V A E D) (requests : ℕ → GenerateRequest)
    {Allowed : World V A E D → Move V A E → Type 0} {start w : World V A E D} (id : ℕ)
    (outcome : GenerateOutcome)
    → ((j : ℕ) → start.stage j ≡ idle)
    → Reach engine requests Allowed start w
    → w.stage id ≡ over outcome
    → drafts_of id w.report_drafts
      ≡ announced outcome.status outcome.draft_id ++ drafts_of id start.report_drafts
over-drafts engine requests {start = start} id outcome all_idle reached is =
    let old : ℕ → List ℕ = λ j. drafts_of j start.report_drafts in
    Reach-IsPublished engine requests old (λ j. rw (all_idle j) refl) reached id
    ∙ ap (λ at. produced at ++ old id) is
