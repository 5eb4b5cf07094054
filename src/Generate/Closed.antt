-- ===== src/Generate/Closed.antt =====
-- No run's row stays `Running`: what runs whose database answers, and whose starts come one after the
-- other, leave in the table of sync runs.
use dayseam.Prelude.{ℕ, ◌≡◌, refl, arith, true, false, [], some, Bool-cases, inl, inr}
use mathlib.Core.Path.{subst}
use dayseam.SyncRuns.{get}
use dayseam.SyncRuns.Standing.{is_known, is_closed}
use dayseam.Generate.{in_flight_key_eq, GenerateOutcome, has_run}
use dayseam.Generate.World.{
  Stage, idle, swapped, signalled, rejected, recorded, spawned, fetched, stopped, cancelling,
  collected, stored, cleared, drafted, failing, ending, over, GenerateRequest, World, Engine,
}
use dayseam.Generate.Machine.{Move, resume, cancel, signal, Reach, here, there, move}
use dayseam.Generate.Standing.{Owed, Fine, owes, is_starting}
use dayseam.Generate.Flights.{IsFlying, is_live, Reach-IsAloft, empty-IsAloft}
use dayseam.Generate.Settles.{IsAllFine, advance-AllFine}

owing_live :
    {V A E D : Type 0} (at : Stage V A E D) (id : ℕ) → owes at ≡ some id → is_live at ≡ true
owing_live (swapped p) id owing = refl
owing_live (signalled p) id owing = refl
owing_live (recorded p) id owing = refl
owing_live idle id owing = ground arith
owing_live rejected id owing = ground arith
owing_live spawned id owing = ground arith
owing_live (fetched ps) id owing = ground arith
owing_live (stopped ps) id owing = ground arith
owing_live (cancelling ps n) id owing = ground arith
owing_live (collected sp) id owing = ground arith
owing_live (stored sp) id owing = ground arith
owing_live (cleared i d ss) id owing = ground arith
owing_live (drafted i ss) id owing = ground arith
owing_live (failing ss) id owing = ground arith
owing_live (ending o) id owing = ground arith
owing_live (over o) id owing = ground arith

over-Owed :
    {V A E D : Type 0} (requests : ℕ → GenerateRequest) (w : World V A E D) (id : ℕ)
    (at : Stage V A E D) (outcome : GenerateOutcome)
    → at ≡ over outcome
    → Fine requests w.in_flight w.sync_runs w.stage id at
    → Owed w.sync_runs w.stage id
over-Owed requests w id at outcome is fine =
    (subst (Fine requests w.in_flight w.sync_runs w.stage id) is fine).1

-- The moves of runs whose database answers, whose identifiers are new, and whose starts come one
-- after the other.
module _ {V A E D : Type 0} where
  abbrev pub IsOrderly : World V A E D → Move V A E → Type 0
  IsOrderly w (cancel id) = Unit
  IsOrderly w (signal id) = Unit
  IsOrderly w (resume id answer) =
      (answer.available ≡ true)
      × (w.stage id ≡ idle
          → (is_known (get id w.sync_runs) ≡ false) × ((j : ℕ) → is_starting (w.stage j) ≡ false))

module _ {V A E D : Type 0} (engine : Engine V A E D) (requests : ℕ → GenerateRequest) where
  move-AllFine :
      (m : Move V A E) (w : World V A E D)
      → IsOrderly w m
      → IsFlying requests w.in_flight w.stage
      → IsAllFine engine requests w
      → IsAllFine engine requests (move engine requests m w)
  unfolding move
  move-AllFine (resume id answer) w (up, begins) aloft all =
      advance-AllFine engine requests id answer (w.stage id) w refl up begins aloft (all id) all
  move-AllFine (signal id) w orderly aloft all = all
  move-AllFine (cancel id) w orderly aloft all = elim (Bool-cases (has_run id w.in_flight)) [
    | inl known ↦ rw known all
    | inr unknown ↦ rw unknown all
  ]

  Reach-AllFine :
      {start w : World V A E D}
      → IsFlying requests start.in_flight start.stage
      → IsAllFine engine requests start
      → Reach engine requests IsOrderly start w
      → IsAllFine engine requests w
  Reach-AllFine aloft all here = all
  Reach-AllFine aloft all (there {w = v} before m orderly) =
      move-AllFine m v orderly (Reach-IsAloft engine requests aloft before)
        (Reach-AllFine aloft all before)

  closed-Owed :
      (w : World V A E D) (id : ℕ)
      → ((j : ℕ) → is_live (w.stage j) ≡ false)
      → Owed w.sync_runs w.stage id
      → is_closed (get id w.sync_runs) ≡ true
  closed-Owed w id none_live (inl closed) = closed
  closed-Owed w id none_live (inr (b, owing)) =
      let live = owing_live (w.stage b) id owing in let dead = none_live b in ground arith

  -- From a world with no run in flight and none begun, let the runs move in any order, and users
  -- cancel as they like, such that every call of the database is answered, each run's identifier is
  -- new to the table, and no run starts while another is in `start_with_trigger`. Whenever no run is
  -- under way, the table has a row of each run that is over, and that row is no longer `Running`.
  pub closed-settled :
      {start w : World V A E D} (id : ℕ) (outcome : GenerateOutcome)
      → start.in_flight ≡ []
      → ((j : ℕ) → start.stage j ≡ idle)
      → Reach engine requests IsOrderly start w
      → ((j : ℕ) → is_live (w.stage j) ≡ false)
      → w.stage id ≡ over outcome
      → is_closed (get id w.sync_runs) ≡ true
  closed-settled {start = start} {w = w} id outcome empty all_idle reached none_live is =
      let fine =
        Reach-AllFine (empty-IsAloft engine requests start empty) (λ j. rw (all_idle j) tt) reached
          id in
      closed-Owed w id none_live (over-Owed requests w id (w.stage id) outcome is fine)
