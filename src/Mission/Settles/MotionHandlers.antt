-- ===== src/Mission/Settles/MotionHandlers.antt =====
-- The obstacle guard is quiet, and the motion handlers of mission.py settle.
use flyto_robotics.Prelude.{refl, Option, none, some, if_ind, String, not}
use native.Mathlib.Nat.{le_refl, le-add_right}
use flyto_robotics.Python.{Runtime}
use flyto_robotics.Python.Relations.{Respects}
use flyto_robotics.Contracts.{StationPose}
use flyto_robotics.Workflow.{WorkflowStep}
use flyto_robotics.Mission.Ranges.{Intent, RangeInput}
use flyto_robotics.Mission.Controller.{Pose2D, Controller}
use flyto_robotics.Mission.Guard.{raise_obstacle, clear_obstacle, act_on, obstacle_guard}
use flyto_robotics.Mission.Motion.{
  steer_to, drive_to, drive_to_some, navigate_step, origin_from, move_origin, yaw_from, turn_origin,
  advance_relative, move_on, move_relative_step, advance_turn, turn_on, turn_relative_step,
}
use flyto_robotics.Mission.Frame.{Quiet, Quiet-refl, Quiet-write_event}
use flyto_robotics.Mission.Settles.{Settles, settle_rules}

module _ {F : Type 0} ⦃rt : Runtime F⦄ where
  pub Quiet-raise_obstacle :
      (now : F) (detail : String) (c : Controller F) → Quiet c (raise_obstacle now detail c).1
  unfolding raise_obstacle
  Quiet-raise_obstacle now detail c =
      if_ind (Quiet c) (not c.obstacle_active)
        (Quiet-write_event now "obstacle_stop" detail c _ refl refl (le-add_right _ 1))
        (Quiet-refl c)

  pub Quiet-clear_obstacle : (now : F) (c : Controller F) → Quiet c (clear_obstacle now c)
  unfolding clear_obstacle
  Quiet-clear_obstacle now c =
      if_ind (Quiet c) c.obstacle_active
        (Quiet-write_event now "path_clear" _ c _ refl refl (le_refl _)) (Quiet-refl c)

  pub Quiet-act_on : (o : Option String) (now : F) (c : Controller F) → Quiet c (act_on o now c).1
  unfolding act_on
  Quiet-act_on none now c = Quiet-clear_obstacle now c
  Quiet-act_on (some detail) now c = Quiet-raise_obstacle now detail c

  pub Quiet-obstacle_guard :
      (range : RangeInput F) (now : F) (intent : Intent) (c : Controller F)
      → Quiet c (obstacle_guard range now intent c).1
  unfolding obstacle_guard
  Quiet-obstacle_guard range now intent c = Quiet-act_on _ now c

  pub Settles-steer_to : (pose : Pose2D F) (x y d : F) → Respects Settles (steer_to pose x y d)
  unfolding steer_to
  Settles-steer_to pose x y d = search settle_rules depth 12

  pub Settles-drive_to :
      (step : WorkflowStep F) (target : StationPose F) (pose : Pose2D F) (now : F)
      → Respects Settles (drive_to step target pose now)
  unfolding drive_to
  Settles-drive_to step target pose now = search (settle_rules, Settles-steer_to) depth 12

  pub Settles-drive_to_some :
      (step : WorkflowStep F) (o : Option (StationPose F)) (pose : Pose2D F) (now : F)
      → Respects Settles (drive_to_some step o pose now)
  unfolding drive_to_some
  Settles-drive_to_some step none pose now = search settle_rules
  Settles-drive_to_some step (some target) pose now = Settles-drive_to step target pose now

  pub Settles-navigate_step :
      (pose : Pose2D F) (range : RangeInput F) (now : F)
      → Respects Settles (navigate_step pose range now)
  unfolding navigate_step
  Settles-navigate_step pose range now =
      search (settle_rules, Quiet-obstacle_guard, Settles-drive_to_some) depth 12

  pub Quiet-origin_from :
      (o : Option (Pose2D F)) (step : WorkflowStep F) (pose : Pose2D F) (now : F) (c : Controller F)
      → Quiet c (origin_from o step pose now c).1
  unfolding origin_from
  Quiet-origin_from (some origin) step pose now c = Quiet-refl c
  Quiet-origin_from none step pose now c =
      Quiet-write_event now "relative_origin_captured" _ c _ refl refl (le_refl _)

  pub Quiet-move_origin :
      (step : WorkflowStep F) (pose : Pose2D F) (now : F) (c : Controller F)
      → Quiet c (move_origin step pose now c).1
  unfolding move_origin
  Quiet-move_origin step pose now c = Quiet-origin_from _ step pose now c

  pub Quiet-yaw_from :
      (o : Option F) (step : WorkflowStep F) (yaw now : F) (c : Controller F)
      → Quiet c (yaw_from o step yaw now c).1
  unfolding yaw_from
  Quiet-yaw_from (some origin) step yaw now c = Quiet-refl c
  Quiet-yaw_from none step yaw now c =
      Quiet-write_event now "relative_origin_captured" _ c _ refl refl (le_refl _)

  pub Quiet-turn_origin :
      (step : WorkflowStep F) (yaw now : F) (c : Controller F)
      → Quiet c (turn_origin step yaw now c).1
  unfolding turn_origin
  Quiet-turn_origin step yaw now c = Quiet-yaw_from _ step yaw now c

  pub Settles-advance_relative :
      (step : WorkflowStep F) (target progress : F) (origin pose : Pose2D F)
      → Respects Settles (advance_relative step target progress origin pose)
  unfolding advance_relative
  Settles-advance_relative step target progress origin pose = search settle_rules depth 14

  pub Settles-move_on : (pose : Pose2D F) (now : F) → Respects Settles (move_on pose now)
  unfolding move_on
  Settles-move_on pose now =
      search (settle_rules, Quiet-move_origin, Settles-advance_relative) depth 16

  pub Settles-move_relative_step :
      (pose : Pose2D F) (range : RangeInput F) (now : F)
      → Respects Settles (move_relative_step pose range now)
  unfolding move_relative_step
  Settles-move_relative_step pose range now =
      search (settle_rules, Quiet-obstacle_guard, Settles-move_on) depth 12

  pub Settles-advance_turn :
      (step : WorkflowStep F) (target turned : F)
      → Respects Settles (advance_turn step target turned)
  unfolding advance_turn
  Settles-advance_turn step target turned = search settle_rules depth 14

  pub Settles-turn_on : (pose : Pose2D F) (now : F) → Respects Settles (turn_on pose now)
  unfolding turn_on
  Settles-turn_on pose now = search (settle_rules, Quiet-turn_origin, Settles-advance_turn) depth 16

  pub Settles-turn_relative_step :
      (pose : Pose2D F) (range : RangeInput F) (now : F)
      → Respects Settles (turn_relative_step pose range now)
  unfolding turn_relative_step
  Settles-turn_relative_step pose range now =
      search (settle_rules, Quiet-obstacle_guard, Settles-turn_on) depth 12
