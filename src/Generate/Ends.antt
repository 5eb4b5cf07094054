-- ===== src/Generate/Ends.antt =====
-- The stage of a run changes by steps of its own only, each of which takes it on.
use dayseam.Prelude.{
  ℕ, ◌+◌, ◌-◌, ◌≤◌, ◌≡◌, refl, ◌∙◌, arith, Bool, true, false, List, [], ◌∷◌, Option, none, some,
  nat_eqb, nat_eqb_iff, if◌then◌else◌, Bool-cases, inl, inr,
}
use dayseam.Prelude.Results.{Result, ok, err}
use dayseam.Runs.{PerSourceState}
use dayseam.SyncRuns.{DbError}
use dayseam.Generate.{newer, has_run}
use dayseam.Generate.World.{
  Stage, idle, swapped, signalled, rejected, recorded, spawned, fetched, stopped, cancelling,
  collected, stored, cleared, drafted, failing, ending, over, World, Answer, Engine,
  GenerateRequest, either, is_nil,
}
use dayseam.Generate.Machine.{Move, resume, cancel, signal, move, moves, advance, guard}

-- How many steps a run has before it, at most.
abbrev pub rank : {V A E D : Type 0} → Stage V A E D → ℕ
rank idle = 11
rank (swapped prior) = 10
rank (signalled prior) = 9
rank rejected = 1
rank (recorded prior) = 8
rank spawned = 7
rank (fetched per_source) = 6
rank (stopped per_source) = 3
rank (cancelling per_source newer) = 2
rank (collected split) = 5
rank (stored split) = 4
rank (cleared draft_id draft sources) = 3
rank (drafted draft_id sources) = 2
rank (failing sources) = 2
rank (ending outcome) = 1
rank (over outcome) = 0

abbrev pub is_over : {V A E D : Type 0} → Stage V A E D → Bool
is_over (over outcome) = true
is_over _ = false

rank-either :
    {V A E D X : Type 0} (answered : Result DbError X) (after refused : Stage V A E D) (n : ℕ)
    → rank after ≤ n
    → rank refused ≤ n
    → rank (either answered after refused) ≤ n
unfolding either
rank-either (ok done) after refused n a r = a
rank-either (err e) after refused n a r = r

module _ {V A E D : Type 0} (engine : Engine V A E D) (requests : ℕ → GenerateRequest) where
  -- One step of a run takes it to a stage of at most a rank, and leaves the others where they are.
  abbrev Lands : ℕ → ℕ → (ℕ → Stage V A E D) → (ℕ → Stage V A E D) → Type 0
  Lands id n stage landed =
      (rank (landed id) ≤ n) × ((j : ℕ) → nat_eqb j id ≡ false → landed j ≡ stage j)

  lands :
      (id : ℕ) (after : Stage V A E D) (stage : ℕ → Stage V A E D) (n : ℕ)
      → rank after ≤ n
      → Lands id n stage (λ j. if nat_eqb j id then after else stage j)
  lands id after stage n low = (rw ((nat_eqb_iff id id).1 refl) low, λ j apart. rw apart refl)

  guard-Lands :
      (id draft_id : ℕ) (sources : List (PerSourceState E)) (other : Option ℕ)
      (rendered : Result E D) (w : World V A E D)
      → Lands id 3 w.stage (guard id draft_id sources other rendered w).stage
  guard-Lands id draft_id sources other (err e) w = lands id _ w.stage 3 (omega arith)
  guard-Lands id draft_id sources none (ok draft) w = lands id _ w.stage 3 (omega arith)
  guard-Lands id draft_id sources (some n) (ok draft) w = lands id _ w.stage 3 (omega arith)

  -- A step of a run that is not over takes it on.
  advance-Lands :
      (id : ℕ) (answer : Answer V A E) (at : Stage V A E D) (w : World V A E D)
      → rank (w.stage id) ≤ rank at
      → Lands id (rank at - 1) w.stage (advance engine requests id answer at w).stage
  unfolding advance
  advance-Lands id answer idle w is = lands id _ w.stage 10 (omega arith)
  advance-Lands id answer (swapped prior) w is = lands id _ w.stage 9 (omega arith)
  advance-Lands id answer (signalled prior) w is =
      lands id _ w.stage 8 (rank-either _ _ _ _ (omega arith) (omega arith))
  advance-Lands id answer rejected w is = lands id _ w.stage 0 (omega arith)
  advance-Lands id answer (recorded none) w is = lands id _ w.stage 7 (omega arith)
  advance-Lands id answer (recorded (some prior)) w is = lands id _ w.stage 7 (omega arith)
  advance-Lands id answer spawned w is = lands id _ w.stage 6 (omega arith)
  advance-Lands id answer (fetched per_source) w is = elim (Bool-cases (w.fired id)) [
    | inl stops ↦ rw stops (lands id _ w.stage 5 (omega arith))
    | inr goes ↦ rw goes (lands id _ w.stage 5 (omega arith))
  ]
  advance-Lands id answer (stopped per_source) w is = lands id _ w.stage 2 (omega arith)
  advance-Lands id answer (cancelling per_source none) w is = lands id _ w.stage 1 (omega arith)
  advance-Lands id answer (cancelling per_source (some n)) w is = lands id _ w.stage 1 (omega arith)
  advance-Lands id answer (collected split) w is = elim (Bool-cases (is_nil split.events)) [
    | inl nothing ↦ rw nothing (lands id _ w.stage 4 (omega arith))
    | inr events ↦
        rw events (lands id _ w.stage 4 (rank-either _ _ _ _ (omega arith) (omega arith)))
  ]
  advance-Lands id answer (stored split) w is =
      guard-Lands id answer.draft_id split.per_source_syncrun _ _ w
  advance-Lands id answer (cleared draft_id draft sources) w is =
      lands id _ w.stage 2 (rank-either _ _ _ _ (omega arith) (omega arith))
  advance-Lands id answer (drafted draft_id sources) w is = lands id _ w.stage 1 (omega arith)
  advance-Lands id answer (failing sources) w is = lands id _ w.stage 1 (omega arith)
  advance-Lands id answer (ending outcome) w is = lands id _ w.stage 0 (omega arith)
  advance-Lands id answer (over outcome) w is = (is, λ j apart. refl)

  abbrev pub steps_of : ℕ → Move V A E → ℕ
  steps_of id (resume j answer) = if nat_eqb id j then 1 else 0
  steps_of id (cancel j) = 0
  steps_of id (signal j) = 0

  abbrev pub resumptions : ℕ → List (Move V A E) → ℕ
  resumptions id [] = 0
  resumptions id (m ∷ ms) = steps_of id m + resumptions id ms

  move_apart :
      (id : ℕ) (m : Move V A E) (w : World V A E D)
      → steps_of id m ≡ 0
      → (move engine requests m w).stage id ≡ w.stage id
  unfolding move
  move_apart id (cancel j) w free = elim (Bool-cases (has_run j w.in_flight)) [
    | inl known ↦ rw known refl
    | inr unknown ↦ rw unknown refl
  ]
  move_apart id (signal j) w free = refl
  move_apart id (resume j answer) w free =
      let apart : nat_eqb id j ≡ false = ground (arith, free) in
      (advance-Lands j answer (w.stage j) w (omega arith)).1 id apart

  -- A run that has no step stays where it is.
  pub moves_apart :
      (id : ℕ) (ms : List (Move V A E)) (w : World V A E D)
      → resumptions id ms ≡ 0
      → (moves engine requests ms w).stage id ≡ w.stage id
  unfolding moves
  moves_apart id [] w free = refl
  moves_apart id (m ∷ ms) w free =
      moves_apart id ms (move engine requests m w) (omega arith) ∙ move_apart id m w (omega arith)
