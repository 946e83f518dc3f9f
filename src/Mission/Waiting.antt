-- ===== src/Mission/Waiting.antt =====
-- mission.py: `_wait_until_clear`, `_ask_human`, `_resume` and `_save_current_location`.
use flyto_robotics.Prelude.{
  String, true, not, ◌+◌, Option, none, some, [], ◌∷◌, if◌then◌else◌, or_else, contains, lookup,
  format, take_chars,
}
use flyto_robotics.Python.{
  Runtime, null, integer, number, to_str, Result, ok, raised, Exception, os_error,
  semantic_map_error, Action, raise, lift, run, gets, modify, ◌>>=◌, ◌>>◌,
}
use flyto_robotics.Prelude.Int.{pos}
use flyto_robotics.Contracts.{SafetyLimits}
use flyto_robotics.SemanticMap.{SemanticLocationMap}
use flyto_robotics.SemanticMap.Store.{SemanticLocationStore, remember}
use flyto_robotics.Workflow.{WorkflowStep, argument}
use flyto_robotics.Mission.Ranges.{
  RangeField, RangeInput, as_field, forward_motion, blind_for, blocking,
}
use flyto_robotics.Mission.Controller.{
  Pose2D, Command, HumanDecision, Controller, current_step, complete_step, step_failure,
  record_event, record_full, hold,
}
use flyto_robotics.Mission.Guard.{nearer}
use flyto_robotics.Mission.Motion.{float_argument}

module _ {F : Type 0} ⦃rt : Runtime F⦄ where
  -- Why the gate is held shut, if it is.
  unfoldable pub gate_blocked : SafetyLimits F → RangeField F → Option String
  unfolding nearer blocking blind_for
  gate_blocked limits field = elim (blind_for field forward_motion) [
    | some sector ↦ some (
        format
          ("wait gate cannot measure " ∷ sector ∷ "; refusing to call an unread sector clear" ∷ []))
    | none ↦
        if nearer field.closest limits.emergency_stop_distance
        then some "wait gate observed range below emergency stop distance"
        else if field.directional
        then (if nearer (blocking field forward_motion).0 limits.obstacle_stop_distance
            then some (
                format (
                  "wait gate observed obstacle "
                  ∷ (blocking field forward_motion).1
                  ∷ " below configured stop distance"
                  ∷ []))
            else none)
        else if nearer field.closest limits.obstacle_stop_distance
        then some "wait gate observed range below configured stop distance"
        else none
  ]

  unfoldable pub gate_shut : String → F → Controller F → Command F × Controller F
  gate_shut detail now c =
      let c = record c { clear_since = none } in
      let c' =
        if not c.clearance_blocked
        then record_event now "clearance_blocked" detail
            (record c { clearance_blocked = true; safety_stop_count = c.safety_stop_count + 1 })
        else c in
      (hold c' "waiting_for_clearance", c')

  -- The start of the clear window, opened now if it was not open.
  unfoldable pub window_from : Option F → F → Controller F → F × Controller F
  window_from (some since) now c = (since, c)
  window_from none now c = (
    now,
    record_event now "clearance_window_started" "continuous safe-clearance verification started"
        (record c { clear_since = some now }),
  )

  unfoldable pub clear_window : F → Controller F → F × Controller F
  unfolding window_from
  clear_window now c = window_from c.clear_since now c

  unfoldable pub gate_open : WorkflowStep F → F → Action (Controller F) (Command F)
  gate_open step now = do
    since ← run (clear_window now)
    required ← lift (float_argument "clear_seconds" (number (rt.decimal 5 1)) step)
    if rt.le required (rt.sub now since)
        then run (
            complete_step now (
              format (step.step_id ∷ " observed clear path for " ∷ rt.fixed 3 required ∷ "s" ∷ [])))
        else gets (λ c. hold c "verifying_clearance")

  abbrev pub pass_gate : Option String → WorkflowStep F → F → Action (Controller F) (Command F)
  pass_gate (some detail) step now = run (gate_shut detail now)
  pass_gate none step now = gate_open step now

  unfoldable pub wait_until_clear_step : RangeInput F → F → Action (Controller F) (Command F)
  wait_until_clear_step range now = do
    step ← current_step
    blocked ← gets (λ c. gate_blocked c.job.safety (as_field range))
    pass_gate blocked step now

  unfoldable pub request_approval : WorkflowStep F → String → F → Controller F → Controller F
  request_approval step approval_id now c =
      if contains approval_id c.approval_requests
      then c
      else record_event now "human_approval_requested"
          (format (
            "approval requested for "
            ∷ approval_id
            ∷ "; prompt="
            ∷ to_str (or_else (argument "prompt_key" step) null)
            ∷ []))
          (record c { approval_requests = approval_id ∷ c.approval_requests })

  abbrev pub approval_of : WorkflowStep F → String
  approval_of step = to_str (or_else (argument "approval_id" step) null)

  unfoldable pub act_on_decision :
      WorkflowStep F → String → Option (HumanDecision F) → F → Action (Controller F) (Command F)
  act_on_decision step approval_id none now = gets (λ c. hold c "waiting_for_human")
  act_on_decision step approval_id (some decision) now =
      if not decision.approved
      then step_failure (format ("human_denied:" ∷ approval_id ∷ [])) now
      else run (
          complete_step now
            (format (step.step_id ∷ " accepted approval from " ∷ decision.actor_id ∷ [])))

  unfoldable pub ask_human_step : F → Action (Controller F) (Command F)
  ask_human_step now = do
    step ← current_step
    modify (request_approval step (approval_of step) now)
    decision ← gets (λ c. lookup (approval_of step) c.human_decisions)
    act_on_decision step (approval_of step) decision now

  unfoldable pub authorize : String → String → F → Controller F → Controller F
  authorize approval_id actor_id now c =
      record_full now "resume_authorized"
        (format ("matching approval verified for " ∷ approval_id ∷ [])) c.state (some actor_id) none
        c

  unfoldable pub resume_on :
      WorkflowStep F → String → Option (HumanDecision F) → F → Action (Controller F) (Command F)
  resume_on step approval_id none now =
      step_failure (format ("resume_without_approval:" ∷ approval_id ∷ [])) now
  resume_on step approval_id (some decision) now =
      if not decision.approved
      then step_failure (format ("resume_without_approval:" ∷ approval_id ∷ [])) now
      else do
        modify (authorize approval_id decision.actor_id now)
        run (complete_step now (format (step.step_id ∷ " resumed after " ∷ approval_id ∷ [])))

  unfoldable pub resume_step : F → Action (Controller F) (Command F)
  resume_step now = do
    step ← current_step
    decision ← gets (λ c. lookup (approval_of step) c.human_decisions)
    resume_on step (approval_of step) decision now

  -- `except (OSError, SemanticMapValidationError)`: any other exception passes on.
  unfoldable pub write_failed : Exception → F → Action (Controller F) (Command F)
  write_failed (os_error e) now =
      step_failure (format ("semantic_map_write_failed:" ∷ take_chars 96 e ∷ [])) now
  write_failed (semantic_map_error e) now =
      step_failure (format ("semantic_map_write_failed:" ∷ take_chars 96 e ∷ [])) now
  write_failed e now = raise e

  unfoldable pub location_saved :
      WorkflowStep F → String → SemanticLocationMap F → F → Controller F → Controller F
  location_saved step location_id snapshot now c =
      record_full now "semantic_location_saved"
        (format (
          location_id
          ∷ " saved in map "
          ∷ snapshot.map_id
          ∷ " revision "
          ∷ to_str {F = F} (integer (pos snapshot.revision))
          ∷ []))
        c.state none (some step) c

  unfoldable pub saved :
      WorkflowStep F
      → String
      → F
      → Result (SemanticLocationMap F)
      → Action (Controller F) (Command F)
  saved step location_id now (raised e) = write_failed e now
  saved step location_id now (ok snapshot) = do
    modify (location_saved step location_id snapshot now)
    run (complete_step now (format (step.step_id ∷ " saved " ∷ location_id ∷ [])))

  unfoldable pub keep_store :
      Result (SemanticLocationMap F) × SemanticLocationStore F
      → Controller F
      → Result (SemanticLocationMap F) × Controller F
  keep_store r c = (r.0, record c { semantic_map_store = some r.1 })

  -- The pose is remembered; the store is an object of its own, and keeps what it wrote.
  unfoldable pub remember_pose :
      SemanticLocationStore F
      → String
      → String
      → Pose2D F
      → Controller F
      → Result (SemanticLocationMap F) × Controller F
  unfolding keep_store
  remember_pose store location_id label pose c =
      keep_store
        (remember store location_id label
          (record { station_id = location_id; x = pose.x; y = pose.y; yaw = pose.yaw }) none)
        c

  unfoldable pub save_in :
      WorkflowStep F
      → Option (SemanticLocationStore F)
      → Pose2D F
      → F
      → Action (Controller F) (Command F)
  save_in step none pose now = step_failure "semantic_map_store_missing" now
  save_in step (some store) pose now = do
    let location_id = to_str (or_else (argument "location_id" step) null)
    let label = to_str (or_else (argument "label" step) null)
    result ← run (remember_pose store location_id label pose)
    saved step location_id now result

  unfoldable pub save_current_location_step : Pose2D F → F → Action (Controller F) (Command F)
  save_current_location_step pose now = do
    step ← current_step
    store ← gets (λ c. c.semantic_map_store)
    save_in step store pose now
