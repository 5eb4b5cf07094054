-- ===== src/Schedule/Gate.antt =====
-- The gate in front of a scheduled write, `run_scheduled_action`. The registry of sinks, the
-- generation of a report and the save of a draft are other parts of the orchestrator: arguments
-- here, the last two as steps on a state `W` of the world. A `Request` carries the kind of the
-- trigger, which is only passed on, and `Sink` has the two fields that the gate reads.
use dayseam.Prelude.{
  ℕ, ◌≡◌, ◌≢◌, ◌↔◌, ◌⊎◌, arith, Bool, true, false, not, ◌&&◌, List, Option, none, some,
  if◌then◌else◌,
}
use dayseam.Prelude.Results.{Result, ok, err}
use dayseam.Runs.{SyncRunStatus, completed, is_completed, SyncRunCancelReason}

pub record Sink (SinkKind : Type 0) : Type 0 where
  pub id : ℕ
  pub kind : SinkKind

pub record SinkCapabilities : Type 0 where
  pub local_only : Bool
  pub remote_write : Bool
  pub interactive_only : Bool
  pub safe_for_unattended : Bool

pub data CapabilityConflict : Type 0 where
  local_and_remote interactive_and_unattended neither_local_nor_remote : CapabilityConflict

pub validate : SinkCapabilities → Result CapabilityConflict Unit
validate c =
    if c.local_only && c.remote_write
    then err local_and_remote
    else if c.interactive_only && c.safe_for_unattended
    then err interactive_and_unattended
    else if not c.local_only && not c.remote_write
    then err neither_local_nor_remote
    else ok tt

-- Capabilities are valid if and only if the sink is either local or remote, and not both
-- interactive and safe for unattended use.
pub validate-ok_iff :
    (c : SinkCapabilities)
    → (validate c ≡ ok tt) ↔ (
        (c.local_only ≡ not c.remote_write)
        × ((c.safe_for_unattended ≡ true) → c.interactive_only ≡ false))
unfolding validate
validate-ok_iff c = ground arith

pub record GenerateOutcome : Type 0 where
  pub status : SyncRunStatus
  pub cancel_reason : Option SyncRunCancelReason
  pub draft_id : Option ℕ

pub data ScheduleRunError (SinkKind DayseamError : Type 0) : Type 0 where
  no_sink_configured : ScheduleRunError SinkKind DayseamError
  sink_not_safe_for_unattended : ℕ → ScheduleRunError SinkKind DayseamError
  sink_not_found : ℕ → ScheduleRunError SinkKind DayseamError
  sink_kind_not_registered : SinkKind → ScheduleRunError SinkKind DayseamError
  generate_did_not_complete :
      SyncRunStatus → Option SyncRunCancelReason → ScheduleRunError SinkKind DayseamError
  generate_join_error : ScheduleRunError SinkKind DayseamError
  save : DayseamError → ScheduleRunError SinkKind DayseamError

module _ {SinkKind DayseamError W Request Receipt : Type 0}
    (get : SinkKind → Option SinkCapabilities)
    -- `none` is a task that was aborted or panicked.
    (generate : Request → W → W × Option GenerateOutcome)
    (save_report : ℕ → Sink SinkKind → W → W × Result DayseamError (List Receipt)) where
  abbrev Ran : Type 0
  Ran = W × Result (ScheduleRunError SinkKind DayseamError) (List Receipt)

  saved : W × Result DayseamError (List Receipt) → Ran
  saved (w, ok receipts) = (w, ok receipts)
  saved (w, err e) = (w, err (save e))

  with_draft : Sink SinkKind → GenerateOutcome → W → Option ℕ → Ran
  unfolding saved
  with_draft sink outcome w none = (w, err (generate_did_not_complete outcome.status none))
  with_draft sink outcome w (some draft_id) = saved (save_report draft_id sink w)

  with_outcome : Sink SinkKind → W × Option GenerateOutcome → Ran
  unfolding with_draft
  with_outcome sink (w, none) = (w, err generate_join_error)
  with_outcome sink (w, some outcome) =
      if not (is_completed outcome.status)
      then (w, err (generate_did_not_complete outcome.status outcome.cancel_reason))
      else with_draft sink outcome w outcome.draft_id

  with_adapter : Request → Sink SinkKind → W → Option SinkCapabilities → Ran
  unfolding with_outcome
  with_adapter request sink w none = (w, err (sink_kind_not_registered sink.kind))
  with_adapter request sink w (some capabilities) =
      if not capabilities.safe_for_unattended
      then (w, err (sink_not_safe_for_unattended sink.id))
      else with_outcome sink (generate request w)

  unfoldable pub run_scheduled_action : Request → Sink SinkKind → W → Ran
  unfolding with_adapter
  run_scheduled_action request sink w = with_adapter request sink w (get sink.kind)

  -- The adapter of a sink, if it is registered and safe for unattended use.
  abbrev pub IsSafe : Sink SinkKind → Type 0
  IsSafe sink =
      (capabilities : SinkCapabilities) × (get sink.kind ≡ some capabilities)
      × (capabilities.safe_for_unattended ≡ true)

  -- Each error has its own cause, and with no other error before it in this order: the sink's kind is
  -- not registered; its adapter is not safe for unattended use; the task of the generation is lost; the
  -- generation ends other than completed, or completed with no draft; the save of the draft fails.
  -- Without a registered adapter that is safe the world stays as it was.
  pub run_scheduled_action-err :
      (request : Request) (sink : Sink SinkKind) (w : W) (id : ℕ) (kind : SinkKind)
      (e : DayseamError) (status : SyncRunStatus) (reason : Option SyncRunCancelReason)
      → (((run_scheduled_action request sink w).1 ≡ err (sink_kind_not_registered kind))
          ↔ ((get sink.kind ≡ none) × (sink.kind ≡ kind)))
        × (((run_scheduled_action request sink w).1 ≡ err (sink_not_safe_for_unattended id)) ↔ (
            ((capabilities : SinkCapabilities) × (get sink.kind ≡ some capabilities)
              × (capabilities.safe_for_unattended ≡ false))
            × (sink.id ≡ id)))
        × (((run_scheduled_action request sink w).1 ≡ err generate_join_error)
            ↔ (IsSafe sink × ((generate request w).1 ≡ none)))
        × (((run_scheduled_action request sink w).1 ≡ err (generate_did_not_complete status reason))
            ↔ (IsSafe sink
                × ((outcome : GenerateOutcome) × ((generate request w).1 ≡ some outcome)
                    × (outcome.status ≡ status)
                    × (((outcome.status ≢ completed) × (outcome.cancel_reason ≡ reason))
                        ⊎ ((outcome.status ≡ completed)
                            × (outcome.draft_id ≡ none)
                            × (reason ≡ none))))))
        × (((run_scheduled_action request sink w).1 ≡ err (save e)) ↔ (
            IsSafe sink
            × ((outcome : GenerateOutcome) × (draft_id : ℕ) × ((generate request w).1
                  ≡ some outcome)
                × (outcome.status ≡ completed)
                × (outcome.draft_id ≡ some draft_id)
                × ((save_report draft_id sink (generate request w).0).1 ≡ err e))))
        × (IsSafe sink ⊎ ((run_scheduled_action request sink w).0 ≡ w))
  unfolding run_scheduled_action
  run_scheduled_action-err request sink w id kind e status reason =
      (ground arith, ground arith, ground arith, ground arith, ground arith, ground arith)

  -- A scheduled action returns receipts only if the sink's adapter is registered and safe for
  -- unattended use, the generation completed with a draft, and the save of this draft to this
  -- sink, in the world that the generation left, returned these receipts.
  pub run_scheduled_action-ok :
      (request : Request) (sink : Sink SinkKind) (w : W) (receipts : List Receipt)
      → (run_scheduled_action request sink w).1 ≡ ok receipts
      → ((capabilities : SinkCapabilities) × (get sink.kind ≡ some capabilities)
          × (capabilities.safe_for_unattended ≡ true))
        × ((outcome : GenerateOutcome) × (draft_id : ℕ) × ((generate request w).1 ≡ some outcome)
            × (outcome.status ≡ completed)
            × (outcome.draft_id ≡ some draft_id)
            × ((save_report draft_id sink (generate request w).0).1 ≡ ok receipts))
  unfolding run_scheduled_action
  run_scheduled_action-ok request sink w receipts h = ground arith
