-- ===== src/Generate/Machine.antt =====
-- The tasks of report runs as machines. A run goes from one point where it waits to the next in one
-- step; between two steps of a run any other run, and a user who cancels, may act. `start_with_trigger`
-- is the stages up to `spawned`, `run_background` those from it, `terminate_cancelled` and
-- `terminate_failed` those from `cancelling` and `failing` on. The run of an identifier belongs to
-- one request. What a run cannot decide is an argument of each step: whether the database answers,
-- the clock, what the sources sent, and the identifier drawn for the draft. The passes before the
-- engine, the engine, and the table of events are arguments too.
use dayseam.Prelude.{ℕ, List, [], ◌∷◌, Option, none, some, if◌then◌else◌}
use dayseam.Prelude.Maps.{remove}
use dayseam.Prelude.Results.{Result, ok, err}
use dayseam.Generate.Artifacts.{collect_mr_artifacts}
use dayseam.Runs.{PerSourceState, superseded_by}
use dayseam.SyncRuns.{insert, mark_finished, mark_cancelled, mark_failed}
use dayseam.Generate.{
  in_flight_key_eq, PerSourceResult, swap_in_flight, superseded_by_now, drop_in_flight_if_ours,
  has_run, reason_of, outcome_failed, outcome_cancelled, outcome_completed, split_fan_out,
}
use dayseam.Generate.World.{
  Stage, World, Answer, GenerateRequest, Engine, attempt, insert_draft, run_ids, fire, fire_prior,
  is_nil, fresh_run, park, change_runs, write_run, write_events, write_draft, idle, swapped,
  signalled, rejected, recorded, spawned, fetched, stopped, cancelling, collected, stored, cleared,
  drafted, failing, ending, over,
}

module _ {V A E D : Type 0} where
  -- The refusal, if any, is logged only.
  abbrev pub mark_prior_superseded : Answer V A E → ℕ → ℕ → World V A E D → World V A E D
  mark_prior_superseded answer prior_run_id new_run_id =
      change_runs answer (mark_cancelled prior_run_id answer.now (superseded_by new_run_id) [])

  abbrev pub terminate_cancelled :
      ℕ → Answer V A E → List (PerSourceResult V A E) → Option ℕ → World V A E D → World V A E D
  terminate_cancelled id answer per_source none w =
      park id (ending (outcome_cancelled id (reason_of none))) (
        change_runs answer
          (mark_cancelled id answer.now (reason_of none)
            (split_fan_out per_source).per_source_syncrun)
          w)
  terminate_cancelled id answer per_source (some newer) w =
      park id (ending (outcome_cancelled id (reason_of (some newer)))) w

  abbrev pub terminate_failed :
      ℕ → Answer V A E → List (PerSourceState E) → World V A E D → World V A E D
  terminate_failed id answer per_source_syncrun w =
      park id (ending (outcome_failed id))
        (change_runs answer (mark_failed id answer.now per_source_syncrun) w)

  -- After the engine: the persist-time guard.
  abbrev pub guard :
      ℕ → ℕ → List (PerSourceState E) → Option ℕ → Result E D → World V A E D → World V A E D
  guard id draft_id sources newer (err e) w = park id (failing sources) w
  guard id draft_id sources none (ok draft) w = park id (cleared draft_id draft sources) w
  guard id draft_id sources (some new_run_id) (ok draft) w =
      park id (over (outcome_cancelled id (superseded_by new_run_id))) w

module _ {V A E D : Type 0} (engine : Engine V A E D) (requests : ℕ → GenerateRequest) where
  abbrev pub start_with_trigger : ℕ → Answer V A E → Stage V A E D → World V A E D → World V A E D
  start_with_trigger id answer idle w =
      let swap = swap_in_flight (requests id).key id w.in_flight in
      park id (swapped (run_ids swap.1)) (record w { in_flight = swap.0 })
  start_with_trigger id answer (swapped prior) w =
      park id (signalled prior) (record w { fired = fire_prior prior w.fired })
  start_with_trigger id answer (signalled prior) w =
      write_run id (recorded prior) rejected
        (attempt answer.available (insert (fresh_run id answer.now (requests id).trigger))
          w.sync_runs)
        w
  start_with_trigger id answer rejected w =
      park id (over (outcome_failed id))
        (record w { in_flight = remove (requests id).key w.in_flight })
  start_with_trigger id answer (recorded none) w = park id spawned w
  start_with_trigger id answer (recorded (some prior)) w =
      park id spawned (mark_prior_superseded answer prior id w)
  start_with_trigger id answer _ w = w

  abbrev pub run_background : ℕ → Answer V A E → Stage V A E D → World V A E D → World V A E D
  run_background id answer spawned w = park id (fetched answer.per_source) w
  run_background id answer (fetched per_source) w =
      let split = split_fan_out per_source in
      park id
        (if w.fired id
          then stopped per_source
          else collected (record split {
            events =
                engine.pipeline split.events (collect_mr_artifacts engine.commit_shas split.events);
          }))
        w
  run_background id answer (stopped per_source) w =
      park id (cancelling per_source (superseded_by_now w.in_flight (requests id).key id)) w
  run_background id answer (collected split) w =
      if is_nil split.events
      then park id (stored split) w
      else write_events id (stored split) (failing split.per_source_syncrun)
          (attempt answer.available (engine.insert_many split.events) w.activity_events) w
  run_background id answer (stored split) w =
      guard id answer.draft_id split.per_source_syncrun
        (superseded_by_now w.in_flight (requests id).key id)
        (engine.report_of answer.draft_id split) w
  run_background id answer (cleared draft_id draft sources) w =
      write_draft id (drafted draft_id sources) (failing sources)
        (attempt answer.available
          (insert_draft (record { id = draft_id; draft = draft; sync_run_id = id }))
          w.report_drafts)
        w
  run_background id answer (drafted draft_id sources) w =
      park id (ending (outcome_completed id draft_id))
        (change_runs answer (mark_finished id answer.now sources) w)
  run_background id answer (ending outcome) w =
      park id (over outcome)
        (record w { in_flight = drop_in_flight_if_ours (requests id).key id w.in_flight })
  run_background id answer _ w = w

  -- One step of a run, by where it waits.
  unfoldable pub advance : ℕ → Answer V A E → Stage V A E D → World V A E D → World V A E D
  advance id answer idle w = start_with_trigger id answer idle w
  advance id answer (swapped prior) w = start_with_trigger id answer (swapped prior) w
  advance id answer (signalled prior) w = start_with_trigger id answer (signalled prior) w
  advance id answer rejected w = start_with_trigger id answer rejected w
  advance id answer (recorded none) w = start_with_trigger id answer (recorded none) w
  advance id answer (recorded (some prior)) w =
      start_with_trigger id answer (recorded (some prior)) w
  advance id answer spawned w = run_background id answer spawned w
  advance id answer (fetched per_source) w = run_background id answer (fetched per_source) w
  advance id answer (stopped per_source) w = run_background id answer (stopped per_source) w
  advance id answer (collected split) w = run_background id answer (collected split) w
  advance id answer (stored split) w = run_background id answer (stored split) w
  advance id answer (cleared draft_id draft sources) w =
      run_background id answer (cleared draft_id draft sources) w
  advance id answer (drafted draft_id sources) w =
      run_background id answer (drafted draft_id sources) w
  advance id answer (ending outcome) w = run_background id answer (ending outcome) w
  advance id answer (cancelling per_source none) w = terminate_cancelled id answer per_source none w
  advance id answer (cancelling per_source (some newer)) w =
      terminate_cancelled id answer per_source (some newer) w
  advance id answer (failing sources) w = terminate_failed id answer sources w
  advance id answer (over outcome) w = w

-- A run's next step, a call of `Orchestrator::cancel`, or one of `cancel` on the token of a
-- `GenerateHandle`.
pub data Move (V A E : Type 0) : Type 0 where
  resume : ℕ → Answer V A E → Move V A E
  cancel signal : ℕ → Move V A E

module _ {V A E D : Type 0} (engine : Engine V A E D) (requests : ℕ → GenerateRequest) where
  unfoldable pub move : Move V A E → World V A E D → World V A E D
  move (resume id answer) w = advance engine requests id answer (w.stage id) w
  move (signal id) w = record w { fired = fire id w.fired }
  move (cancel id) w = if has_run id w.in_flight then record w { fired = fire id w.fired } else w

  unfoldable pub moves : List (Move V A E) → World V A E D → World V A E D
  moves [] w = w
  moves (m ∷ ms) w = moves ms (move m w)

  -- The worlds that moves which an assumption allows lead to, in whatever order the moves come.
  pub data Reach (Allowed : World V A E D → Move V A E → Type 0) (start : World V A E D)
      : World V A E D → Type 0 where
    here : Reach Allowed start start
    there :
        {w : World V A E D}
        → Reach Allowed start w
        → (m : Move V A E) → Allowed w m
        → Reach Allowed start (move m w)
