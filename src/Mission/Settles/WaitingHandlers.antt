-- ===== src/Mission/Settles/WaitingHandlers.antt =====
-- The gates of mission.py, and the handler that saves a location, settle.
use flyto_robotics.Prelude.{refl, Option, none, some, if_ind, contains, String, not}
use native.Mathlib.Nat.{le_refl, le-add_right}
use flyto_robotics.Python.{Runtime, Exception, os_error, Result, ok, raised}
use flyto_robotics.Python.Relations.{Respects}
use flyto_robotics.SemanticMap.{SemanticLocationMap}
use flyto_robotics.SemanticMap.Store.{SemanticLocationStore}
use flyto_robotics.Workflow.{WorkflowStep}
use flyto_robotics.Mission.Ranges.{RangeInput}
use flyto_robotics.Mission.Controller.{Pose2D, Controller, HumanDecision}
use flyto_robotics.Mission.Waiting.{
  gate_shut, window_from, clear_window, gate_open, pass_gate, wait_until_clear_step,
  request_approval, act_on_decision, ask_human_step, resume_on, resume_step, write_failed, saved,
  keep_store, remember_pose, authorize, location_saved, save_in, save_current_location_step,
}
use flyto_robotics.Mission.Frame.{
  Quiet, Quiet-refl, Quiet-write, Quiet-write_event, Quiet-record_full,
}
use flyto_robotics.Mission.Settles.{Settles, settle_rules, Settles-run-Quiet}

module _ {F : Type 0} ⦃rt : Runtime F⦄ where
  pub Quiet-gate_shut :
      (detail : String) (now : F) (c : Controller F) → Quiet c (gate_shut detail now c).1
  unfolding gate_shut
  Quiet-gate_shut detail now c =
      if_ind (Quiet c) (not c.clearance_blocked)
        (Quiet-write_event now "clearance_blocked" detail c _ refl refl (le-add_right _ 1))
        (Quiet-write c _ refl refl (le_refl _))

  pub Quiet-window_from :
      (o : Option F) (now : F) (c : Controller F) → Quiet c (window_from o now c).1
  unfolding window_from
  Quiet-window_from (some since) now c = Quiet-refl c
  Quiet-window_from none now c =
      Quiet-write_event now "clearance_window_started" _ c _ refl refl (le_refl _)

  pub Quiet-clear_window : (now : F) (c : Controller F) → Quiet c (clear_window now c).1
  unfolding clear_window
  Quiet-clear_window now c = Quiet-window_from _ now c

  pub Settles-gate_open : (step : WorkflowStep F) (now : F) → Respects Settles (gate_open step now)
  unfolding gate_open
  Settles-gate_open step now = search (settle_rules, Quiet-clear_window) depth 12

  pub Settles-pass_gate :
      (o : Option String) (step : WorkflowStep F) (now : F)
      → Respects Settles (pass_gate o step now)
  Settles-pass_gate none step now = Settles-gate_open step now
  Settles-pass_gate (some detail) step now =
      Settles-run-Quiet (gate_shut detail now) (Quiet-gate_shut detail now)

  pub Settles-wait_until_clear_step :
      (range : RangeInput F) (now : F) → Respects Settles (wait_until_clear_step range now)
  unfolding wait_until_clear_step
  Settles-wait_until_clear_step range now = search (settle_rules, Settles-pass_gate) depth 12

  pub Quiet-request_approval :
      (step : WorkflowStep F) (approval_id : String) (now : F) (c : Controller F)
      → Quiet c (request_approval step approval_id now c)
  unfolding request_approval
  Quiet-request_approval step approval_id now c =
      if_ind (Quiet c) (contains approval_id c.approval_requests) (Quiet-refl c)
        (Quiet-write_event now "human_approval_requested" _ c _ refl refl (le_refl _))

  pub Settles-act_on_decision :
      (step : WorkflowStep F) (approval_id : String) (o : Option (HumanDecision F)) (now : F)
      → Respects Settles (act_on_decision step approval_id o now)
  unfolding act_on_decision
  Settles-act_on_decision step approval_id none now = search settle_rules
  Settles-act_on_decision step approval_id (some d) now = search settle_rules

  pub Settles-ask_human_step : (now : F) → Respects Settles (ask_human_step now)
  unfolding ask_human_step
  Settles-ask_human_step now =
      search (settle_rules, Quiet-request_approval, Settles-act_on_decision) depth 12

  pub Quiet-authorize :
      (approval_id actor_id : String) (now : F) (c : Controller F)
      → Quiet c (authorize approval_id actor_id now c)
  unfolding authorize
  Quiet-authorize approval_id actor_id now c =
      Quiet-record_full now _ _ c.state (some actor_id) none c

  pub Settles-resume_on :
      (step : WorkflowStep F) (approval_id : String) (o : Option (HumanDecision F)) (now : F)
      → Respects Settles (resume_on step approval_id o now)
  unfolding resume_on
  Settles-resume_on step approval_id none now = search settle_rules
  Settles-resume_on step approval_id (some d) now = search (settle_rules, Quiet-authorize) depth 12

  pub Settles-resume_step : (now : F) → Respects Settles (resume_step now)
  unfolding resume_step
  Settles-resume_step now = search (settle_rules, Settles-resume_on) depth 12

  pub Settles-write_failed : (e : Exception) (now : F) → Respects Settles (write_failed e now)
  unfolding write_failed
  Settles-write_failed (os_error e) now = search settle_rules
  Settles-write_failed _ now = search settle_rules

  pub Quiet-location_saved :
      (step : WorkflowStep F) (location_id : String) (m : SemanticLocationMap F) (now : F)
      (c : Controller F)
      → Quiet c (location_saved step location_id m now c)
  unfolding location_saved
  Quiet-location_saved step location_id m now c =
      Quiet-record_full now _ _ c.state none (some step) c

  pub Settles-saved :
      (step : WorkflowStep F) (location_id : String) (now : F) (r : Result (SemanticLocationMap F))
      → Respects Settles (saved step location_id now r)
  unfolding saved
  Settles-saved step location_id now (raised e) = Settles-write_failed e now
  Settles-saved step location_id now (ok m) = search (settle_rules, Quiet-location_saved) depth 12

  pub Quiet-remember_pose :
      (store : SemanticLocationStore F) (location_id label : String) (pose : Pose2D F)
      (c : Controller F)
      → Quiet c (remember_pose store location_id label pose c).1
  unfolding remember_pose keep_store
  Quiet-remember_pose store location_id label pose c = Quiet-write c _ refl refl (le_refl _)

  pub Settles-save_in :
      (step : WorkflowStep F) (o : Option (SemanticLocationStore F)) (pose : Pose2D F) (now : F)
      → Respects Settles (save_in step o pose now)
  unfolding save_in
  Settles-save_in step none pose now = search settle_rules
  Settles-save_in step (some store) pose now =
      search (settle_rules, Quiet-remember_pose, Settles-saved) depth 12

  pub Settles-save_current_location_step :
      (pose : Pose2D F) (now : F) → Respects Settles (save_current_location_step pose now)
  unfolding save_current_location_step
  Settles-save_current_location_step pose now = search (settle_rules, Settles-save_in) depth 12
