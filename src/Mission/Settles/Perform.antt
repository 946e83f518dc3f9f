-- ===== src/Mission/Settles/Perform.antt =====
-- Whatever the kind of the step, its handler settles.
use flyto_robotics.Python.{Runtime}
use flyto_robotics.Python.Relations.{Respects}
use flyto_robotics.Workflow.{
  PrimitiveKind, navigate, move_relative, turn_relative, dwell, follow_line, wait_until_clear,
  ask_human, resume, save_current_location, navigate_to_location, safe_stop, WorkflowStep,
}
use flyto_robotics.Mission.Tick.{TickInput, dwell_step, perform}
use flyto_robotics.Mission.Settles.{Settles, settle_rules}
use flyto_robotics.Mission.Settles.MotionHandlers.{
  Settles-navigate_step, Settles-move_relative_step, Settles-turn_relative_step,
}
use flyto_robotics.Mission.Settles.LineHandlers.{Settles-follow_line_step}
use flyto_robotics.Mission.Settles.WaitingHandlers.{
  Settles-wait_until_clear_step, Settles-ask_human_step, Settles-resume_step,
  Settles-save_current_location_step,
}

module _ {F : Type 0} ⦃rt : Runtime F⦄ where
  pub Settles-dwell_step :
      (step : WorkflowStep F) (now : F) → Respects Settles (dwell_step step now)
  unfolding dwell_step
  Settles-dwell_step step now = search settle_rules depth 12

  pub Settles-perform :
      (kind : PrimitiveKind) (step : WorkflowStep F) (t : TickInput F)
      → Respects Settles (perform kind step t)
  unfolding perform
  Settles-perform navigate step t = Settles-navigate_step t.pose t.range t.now
  Settles-perform navigate_to_location step t = Settles-navigate_step t.pose t.range t.now
  Settles-perform turn_relative step t = Settles-turn_relative_step t.pose t.range t.now
  Settles-perform move_relative step t = Settles-move_relative_step t.pose t.range t.now
  Settles-perform follow_line step t = Settles-follow_line_step t.line_scene t.range t.now
  Settles-perform wait_until_clear step t = Settles-wait_until_clear_step t.range t.now
  Settles-perform ask_human step t = Settles-ask_human_step t.now
  Settles-perform resume step t = Settles-resume_step t.now
  Settles-perform save_current_location step t = Settles-save_current_location_step t.pose t.now
  Settles-perform dwell step t = Settles-dwell_step step t.now
  Settles-perform safe_stop step t = Settles-dwell_step step t.now
