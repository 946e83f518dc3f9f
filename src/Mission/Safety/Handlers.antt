-- ===== src/Mission/Safety/Handlers.antt =====
-- Each handler of mission.py yields a stop, or a motion that its guard has let through.
use flyto_robotics.Prelude.{
  ◌≡◌, ◌⊎◌, true, false, refl, inl, inr, Bool-cases, Option, none, some, String, if◌then◌else◌,
}
use flyto_robotics.Python.{
  Runtime, Exception, os_error, Result, ok, raised, Action, gets, run, unless_some, ◌>>=◌,
}
use flyto_robotics.Contracts.{DeliveryJob}
use flyto_robotics.SemanticMap.{SemanticLocationMap}
use flyto_robotics.SemanticMap.Store.{SemanticLocationStore}
use flyto_robotics.Workflow.{
  PrimitiveKind, navigate, move_relative, turn_relative, dwell, follow_line, wait_until_clear,
  ask_human, resume, save_current_location, navigate_to_location, safe_stop, WorkflowStep,
}
use flyto_robotics.Mission.Ranges.{
  Intent, forward_motion, reverse_motion, rotation, RangeField, RangeInput, as_field,
}
use flyto_robotics.Mission.Controller.{
  Pose2D, Command, Controller, HumanDecision, hold, complete_step, step_failure,
}
use flyto_robotics.Mission.Guard.{obstruction, obstacle_guard}
use flyto_robotics.Mission.Motion.{
  navigate_step, move_relative_step, turn_relative_step, move_on, turn_on, float_argument_or_zero,
}
use flyto_robotics.Mission.LineFollowing.{follow_line_step}
use flyto_robotics.Mission.Waiting.{
  gate_shut, gate_open, pass_gate, wait_until_clear_step, act_on_decision, ask_human_step,
  resume_on, resume_step, write_failed, saved, save_in, save_current_location_step,
}
use flyto_robotics.Mission.Tick.{TickInput, dwell_step, perform}
use flyto_robotics.Mission.Settles.{settle_rules}
use flyto_robotics.Mission.Settles.WaitingHandlers.{
  Quiet-clear_window, Quiet-request_approval, Quiet-authorize, Quiet-location_saved,
  Quiet-remember_pose,
}
use flyto_robotics.Mission.Safety.{
  IsStop, IsLicensed, Advances, Makes, IsStop-hold, IsStop-complete_step, Yields, Yields-raise,
  Yields-gets, Yields-run, Yields-if, Yields-bind, Yields-step_failure, Yields-guard, Yields-weaken,
  Yields-lift, Yields-current_step,
}
use flyto_robotics.Mission.Safety.Driving.{
  Advances-drive_to_some, Displaces-move_on, Turns-turn_on, Follows-follow,
}
use flyto_robotics.LinePerception.{LineScene}

module _ {F : Type 0} ⦃rt : Runtime F⦄ (job : DeliveryJob F) (active : WorkflowStep F) where
  IsStop-only : (command : Command F) → IsStop command → IsStop command
  IsStop-only command h = h

  Stops-failure : (reason : String) (now : F) → Yields job active IsStop (step_failure reason now)
  Stops-failure = Yields-step_failure IsStop-only

  Stops-complete :
      (now : F) (detail : String) → Yields job active IsStop (run (complete_step now detail))
  Stops-complete now detail = Yields-run _ (IsStop-complete_step now detail)

  Stops-hold : (reason : String) → Yields job active IsStop (gets (λ c. hold c reason))
  Stops-hold reason = Yields-gets _ (λ c. IsStop-hold c reason)

  ruleset stop_rules = (
    settle_rules, Stops-failure, Stops-complete, Stops-hold, Yields-raise, Yields-if, Yields-bind,
  )

  IsStop-gate_shut :
      (detail : String) (now : F) (c : Controller F) → IsStop (gate_shut detail now c).0
  unfolding gate_shut hold
  IsStop-gate_shut detail now c = (refl, refl)

  Stops-gate_open :
      (step : WorkflowStep F) (now : F) → Yields job active IsStop (gate_open step now)
  unfolding gate_open
  Stops-gate_open step now = search (stop_rules, Quiet-clear_window) depth 12

  Stops-pass_gate :
      (o : Option String) (step : WorkflowStep F) (now : F)
      → Yields job active IsStop (pass_gate o step now)
  Stops-pass_gate none step now = Stops-gate_open step now
  Stops-pass_gate (some detail) step now = Yields-run _ (IsStop-gate_shut detail now)

  Stops-wait_until_clear_step :
      (range : RangeInput F) (now : F) → Yields job active IsStop (wait_until_clear_step range now)
  unfolding wait_until_clear_step
  Stops-wait_until_clear_step range now = search (stop_rules, Stops-pass_gate) depth 12

  Stops-act_on_decision :
      (step : WorkflowStep F) (approval_id : String) (o : Option (HumanDecision F)) (now : F)
      → Yields job active IsStop (act_on_decision step approval_id o now)
  unfolding act_on_decision
  Stops-act_on_decision step approval_id none now = Stops-hold "waiting_for_human"
  Stops-act_on_decision step approval_id (some d) now = search stop_rules

  Stops-ask_human_step : (now : F) → Yields job active IsStop (ask_human_step now)
  unfolding ask_human_step
  Stops-ask_human_step now =
      search (stop_rules, Quiet-request_approval, Stops-act_on_decision) depth 12

  Stops-resume_on :
      (step : WorkflowStep F) (approval_id : String) (o : Option (HumanDecision F)) (now : F)
      → Yields job active IsStop (resume_on step approval_id o now)
  unfolding resume_on
  Stops-resume_on step approval_id none now = Stops-failure _ now
  Stops-resume_on step approval_id (some d) now = search (stop_rules, Quiet-authorize) depth 12

  Stops-resume_step : (now : F) → Yields job active IsStop (resume_step now)
  unfolding resume_step
  Stops-resume_step now = search (stop_rules, Stops-resume_on) depth 12

  Stops-write_failed : (e : Exception) (now : F) → Yields job active IsStop (write_failed e now)
  unfolding write_failed
  Stops-write_failed (os_error e) now = search stop_rules
  Stops-write_failed _ now = search stop_rules

  Stops-saved :
      (step : WorkflowStep F) (location_id : String) (now : F) (r : Result (SemanticLocationMap F))
      → Yields job active IsStop (saved step location_id now r)
  unfolding saved
  Stops-saved step location_id now (raised e) = Stops-write_failed e now
  Stops-saved step location_id now (ok m) = search (stop_rules, Quiet-location_saved) depth 12

  Stops-save_in :
      (step : WorkflowStep F) (o : Option (SemanticLocationStore F)) (pose : Pose2D F) (now : F)
      → Yields job active IsStop (save_in step o pose now)
  unfolding save_in
  Stops-save_in step none pose now = search stop_rules
  Stops-save_in step (some store) pose now =
      search (stop_rules, Quiet-remember_pose, Stops-saved) depth 12

  Stops-save_current_location_step :
      (pose : Pose2D F) (now : F) → Yields job active IsStop (save_current_location_step pose now)
  unfolding save_current_location_step
  Stops-save_current_location_step pose now = search (stop_rules, Stops-save_in) depth 12

  Stops-dwell_step :
      (step : WorkflowStep F) (now : F) → Yields job active IsStop (dwell_step step now)
  unfolding dwell_step
  Stops-dwell_step step now = search stop_rules depth 12

  -- A guarded motion is licensed if what is behind the guard makes it.
  Licensed-guard :
      (kind : PrimitiveKind) (range : RangeInput F) (now : F) (intent : Intent)
      (rest : Action (Controller F) (Command F))
      → Yields job active (λ command. IsStop command ⊎ Makes job active kind intent command) rest
      → Yields job active
          (IsLicensed job active (as_field range) kind)
          (run (obstacle_guard range now intent) >>= λ g. unless_some g rest)
  Licensed-guard kind range now intent rest makes =
      Yields-guard range now intent rest (λ command. inl)
        λ free.
          Yields-weaken (IsLicensed job active (as_field range) kind) rest
            (λ command h. licensed command free h) makes
    where
      licensed :
          (command : Command F)
          → obstruction job.safety (as_field range) intent ≡ none
          → IsStop command ⊎ Makes job active kind intent command
          → IsLicensed job active (as_field range) kind command
      licensed command free (inl stop) = inl stop
      licensed command free (inr makes) = inr (intent, makes, free)

  Licensed-stops :
      (field : RangeField F) (kind : PrimitiveKind) (m : Action (Controller F) (Command F))
      → Yields job active IsStop m
      → Yields job active (IsLicensed job active field kind) m
  Licensed-stops field kind m h =
      Yields-weaken (IsLicensed job active field kind) m (λ command. inl) h

  Licensed-move :
      (pose : Pose2D F) (range : RangeInput F) (now distance : F)
      → float_argument_or_zero "distance_m" active ≡ ok distance
      → Yields job active (IsLicensed job active (as_field range) move_relative) (
          run (
            obstacle_guard range now
              (if rt.lt distance (rt.decimal 0 0) then reverse_motion else forward_motion))
          >>= λ g. unless_some g (move_on pose now))
  Licensed-move pose range now distance given =
      elim (Bool-cases (rt.lt distance (rt.decimal 0 0))) [
        | inl back ↦ rw back (
            Licensed-guard move_relative range now reverse_motion (move_on pose now)
              (Displaces-move_on job active distance true given back pose now))
        | inr ahead ↦ rw ahead (
            Licensed-guard move_relative range now forward_motion (move_on pose now)
              (Displaces-move_on job active distance false given ahead pose now))
      ]

  Licensed-move_relative_step :
      (pose : Pose2D F) (range : RangeInput F) (now : F)
      → Yields job active
          (IsLicensed job active (as_field range) move_relative)
          (move_relative_step pose range now)
  unfolding move_relative_step
  Licensed-move_relative_step pose range now = Yields-current_step _ (
      Yields-lift (float_argument_or_zero "distance_m" active) _
        λ distance given. Licensed-move pose range now distance given)

  Licensed-navigate_step :
      (kind : PrimitiveKind) (pose : Pose2D F) (range : RangeInput F) (now : F)
      → ((command : Command F)
          → IsStop command ⊎ Advances job command
          → IsStop command ⊎ Makes job active kind forward_motion command)
      → Yields job active
          (IsLicensed job active (as_field range) kind)
          (navigate_step pose range now)
  unfolding navigate_step
  Licensed-navigate_step kind pose range now same = Licensed-guard kind range now forward_motion _ (
      Yields-current_step _
        (Yields-weaken _ _ same (Advances-drive_to_some job active active active.station pose now)))

  Licensed-turn_relative_step :
      (pose : Pose2D F) (range : RangeInput F) (now : F)
      → Yields job active
          (IsLicensed job active (as_field range) turn_relative)
          (turn_relative_step pose range now)
  unfolding turn_relative_step
  Licensed-turn_relative_step pose range now =
      Licensed-guard turn_relative range now rotation (turn_on pose now)
        (Turns-turn_on job active pose now)

  Licensed-follow_line_step :
      (scene : Option (LineScene F)) (range : RangeInput F) (now : F)
      → Yields job active
          (IsLicensed job active (as_field range) follow_line)
          (follow_line_step scene range now)
  unfolding follow_line_step
  Licensed-follow_line_step scene range now =
      Licensed-guard follow_line range now forward_motion _
        (Yields-current_step _ (Yields-lift _ _ λ minimum _. Follows-follow job active _ scene now))

  pub Licensed-perform :
      (kind : PrimitiveKind) (step : WorkflowStep F) (t : TickInput F)
      → Yields job active (IsLicensed job active (as_field t.range) kind) (perform kind step t)
  unfolding perform
  Licensed-perform navigate step t =
      Licensed-navigate_step navigate t.pose t.range t.now (λ command h. h)
  Licensed-perform navigate_to_location step t =
      Licensed-navigate_step navigate_to_location t.pose t.range t.now (λ command h. h)
  Licensed-perform turn_relative step t = Licensed-turn_relative_step t.pose t.range t.now
  Licensed-perform move_relative step t = Licensed-move_relative_step t.pose t.range t.now
  Licensed-perform follow_line step t = Licensed-follow_line_step t.line_scene t.range t.now
  Licensed-perform wait_until_clear step t =
      Licensed-stops _ wait_until_clear _ (Stops-wait_until_clear_step t.range t.now)
  Licensed-perform ask_human step t = Licensed-stops _ ask_human _ (Stops-ask_human_step t.now)
  Licensed-perform resume step t = Licensed-stops _ resume _ (Stops-resume_step t.now)
  Licensed-perform save_current_location step t =
      Licensed-stops _ save_current_location _ (Stops-save_current_location_step t.pose t.now)
  Licensed-perform dwell step t = Licensed-stops _ dwell _ (Stops-dwell_step step t.now)
  Licensed-perform safe_stop step t = Licensed-stops _ safe_stop _ (Stops-dwell_step step t.now)
