-- ===== src/Mission/Controller/Transitions.antt =====
-- mission.py: `_elapsed`, `_record_event`, `_transition`, `fail`, `cancel`, `_current_step`,
-- `_start_next_step`, `_complete_step` and `_step_failure`.
use flyto_robotics.Prelude.{
  String, false, not, ◌+◌, Option, none, some, List, [], ◌∷◌, ◌++◌, if◌then◌else◌, length,
  get_elem?, format, str_eq,
}
use flyto_robotics.Prelude.Int.{ℤ, pos, negsuc, ◌+ℤ◌}
use flyto_robotics.Python.{
  Runtime, fmax, value_error, runtime_error, Action, pure, raise, run, ◌>>=◌,
}
use flyto_robotics.Capabilities.{safe_text}
use flyto_robotics.Contracts.{StationPose}
use flyto_robotics.Workflow.{MissionState, completed, failed, cancelled, WorkflowStep, kind_value}
use flyto_robotics.Mission.Controller.State.{Command, Controller, terminal}

module _ {F : Type 0} where
  -- The workflow step that `step_index` names, if it is in range.
  unfoldable pub step_at : List (WorkflowStep F) → ℤ → Option (WorkflowStep F)
  step_at steps (pos n) = get_elem? steps n
  step_at steps (negsuc n) = none

  unfoldable pub active_step : Controller F → Option (WorkflowStep F)
  unfolding step_at
  active_step c = step_at c.workflow.steps c.step_index

  unfoldable pub step_or_raise : Option (WorkflowStep F) → Action (Controller F) (WorkflowStep F)
  step_or_raise none = raise (runtime_error "workflow step is not active")
  step_or_raise (some step) = pure step

  -- `_current_step`
  unfoldable pub current_step : Action (Controller F) (WorkflowStep F)
  unfolding step_or_raise
  current_step c = step_or_raise (active_step c) c

  abbrev id_of : Option (WorkflowStep F) → Option String
  id_of none = none
  id_of (some step) = some step.step_id

  abbrev capability_of : Option (WorkflowStep F) → Option String
  capability_of none = none
  capability_of (some step) = some (kind_value step.kind)

  abbrev or_active : Option (WorkflowStep F) → Controller F → Option (WorkflowStep F)
  or_active none c = active_step c
  or_active (some step) c = some step

  abbrev pub target_detail : Option (StationPose F) → String
  target_detail none = ""
  target_detail (some station) = format (" at " ∷ station.station_id ∷ [])

module _ {F : Type 0} ⦃rt : Runtime F⦄ where
  unfoldable pub elapsed : Controller F → F → F
  unfolding fmax
  elapsed c now = fmax (rt.decimal 0 1) (rt.sub now c.started_at)

  -- `Command(0.0, 0.0, self.state, reason)`
  unfoldable pub hold : Controller F → String → Command F
  hold c reason = record {
    linear_x = rt.decimal 0 1;
    angular_z = rt.decimal 0 1;
    state = c.state;
    reason = reason;
  }

  -- `_record_event`, with all its optional arguments.
  unfoldable pub record_full :
      F
      → String
      → String
      → MissionState
      → Option String
      → Option (WorkflowStep F)
      → Controller F
      → Controller F
  record_full now kind detail state actor_id step c = record c {
    events =
        c.events
        ++ record {
          at_seconds = elapsed c now;
          kind = kind;
          state = state;
          detail = detail;
          sequence = length c.events + 1;
          step_id = id_of (or_active step c);
          capability = capability_of (or_active step c);
          actor_id = actor_id;
        }
          ∷ [];
  }

  -- `self._record_event(now, kind, detail)`
  unfoldable pub record_event : F → String → String → Controller F → Controller F
  unfolding record_full
  record_event now kind detail c = record_full now kind detail c.state none none c

  unfoldable pub transition : MissionState → F → String → String → Controller F → Controller F
  unfolding record_full
  transition state now detail kind c =
      record_full now kind detail state none none
        (record c { state = state; state_entered_at = now })

  unfoldable pub fail : String → F → Controller F → Command F × Controller F
  unfolding transition hold
  fail reason now c =
      let c' =
        if not (terminal c)
        then transition failed now reason "mission_failed"
            (record c { failure_reason = some reason })
        else c in
      (hold c' reason, c')

  -- The part of `cancel_for_safety` behind its check of the reason.
  unfoldable pub cancelled_for : String → F → Controller F → Command F × Controller F
  unfolding transition hold
  cancelled_for reason now c =
      let c' =
        if not (terminal c) then transition cancelled now reason "mission_cancelled" c else c in
      (hold c' reason, c')

  unfoldable pub cancel_for_safety : F → String → Action (Controller F) (Command F)
  unfolding cancelled_for safe_text
  cancel_for_safety now reason =
      if not (safe_text reason)
      then raise (value_error "safety cancellation reason must be a safe identifier")
      else run (cancelled_for reason now)

  unfoldable pub cancel : F → Action (Controller F) (Command F)
  unfolding cancel_for_safety
  cancel now = cancel_for_safety now "cancel_requested"

  unfoldable pub reset_scratch : Controller F → Controller F
  reset_scratch c = record c {
    line_acquired_at = none;
    line_last_seen_at = none;
    relative_origin = none;
    turn_origin_yaw = none;
    clear_since = none;
    clearance_blocked = false;
  }

  -- The step's own fields are reset before it starts.
  unfoldable pub start_primitive : WorkflowStep F → F → Controller F → Controller F
  unfolding transition reset_scratch
  start_primitive step now c =
      transition step.active_state now
        (format ("start primitive " ∷ step.step_id ∷ target_detail step.station ∷ []))
        "primitive_started" (reset_scratch c)

  unfoldable pub start_or_complete : Option (WorkflowStep F) → F → Controller F → Controller F
  unfolding start_primitive
  start_or_complete none now c =
      transition completed now (format ("workflow " ∷ c.workflow.workflow_id ∷ " completed" ∷ []))
        "mission_completed" c
  start_or_complete (some step) now c = start_primitive step now c

  -- `_start_next_step`. The index starts at -1 and only grows by one, so an index past the list is
  -- the only one without a step.
  unfoldable pub start_next_step : F → Controller F → Controller F
  unfolding active_step ◌+ℤ◌
  start_next_step now c =
      let c' = record c { step_index = c.step_index +ℤ pos 1 } in
      start_or_complete (active_step c') now c'

  unfoldable pub complete_step : F → String → Controller F → Command F × Controller F
  unfolding record_event hold
  complete_step now detail c =
      let c' = start_next_step now (record_event now "primitive_completed" detail c) in
      (hold c' "primitive_completed", c')

  -- The step is active: the handlers call this behind `_current_step`.
  unfoldable pub failure_of : WorkflowStep F → String → F → Controller F → Command F × Controller F
  unfolding record_event
  failure_of step reason now c =
      if str_eq step.on_failure "request_replan"
      then fail (format ("replan_required:" ∷ reason ∷ [])) now
          (record_event now "replan_requested" (format (step.step_id ∷ ": " ∷ reason ∷ [])) c)
      else fail reason now c

  unfoldable pub step_failure : String → F → Action (Controller F) (Command F)
  step_failure reason now = do step ← current_step; run (failure_of step reason now)
