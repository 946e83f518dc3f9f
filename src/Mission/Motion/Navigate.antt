-- ===== src/Mission/Motion/Navigate.antt =====
-- mission.py: `_navigate`.
use flyto_robotics.Prelude.{Option, none, some, [], ◌∷◌, if◌then◌else◌, format}
use flyto_robotics.Python.{
  Runtime, fmin, fmax, cosine, Action, pure, lift, run, gets, unless_some, ◌>>=◌,
}
use flyto_robotics.Contracts.{StationPose}
use flyto_robotics.Workflow.{WorkflowStep}
use flyto_robotics.Mission.Ranges.{RangeInput, forward_motion}
use flyto_robotics.Mission.Controller.{
  Pose2D, Command, Controller, current_step, complete_step, step_failure,
}
use flyto_robotics.Mission.Guard.{obstacle_guard}
use flyto_robotics.Mission.Motion.Arithmetic.{normalize_angle, clamp}

module _ {F : Type 0} ⦃rt : Runtime F⦄ where
  -- The command that drives towards a target that is not reached: turn first, then advance.
  unfoldable pub steer_to : Pose2D F → F → F → F → Action (Controller F) (Command F)
  steer_to pose delta_x delta_y distance = do
    limits ← gets (λ c. c.job.safety)
    state ← gets (λ c. c.state)
    heading_error ← lift (normalize_angle (rt.sub (rt.atan2 delta_y delta_x) pose.yaw))
    let angular =
        clamp (rt.mul (rt.decimal 18 1) heading_error) (rt.neg limits.max_angular_speed)
          limits.max_angular_speed
    if rt.lt (rt.decimal 45 2) (rt.abs heading_error)
        then pure (record {
          linear_x = rt.decimal 0 1;
          angular_z = angular;
          state = state;
          reason = "turning_to_target";
        })
        else do
          let linear =
              fmin limits.max_linear_speed
                (fmax (rt.decimal 4 2) (rt.mul (rt.decimal 65 2) distance))
          cosine_error ← lift (cosine heading_error)
          pure (record {
            linear_x = rt.mul linear (fmax (rt.decimal 15 2) cosine_error);
            angular_z = angular;
            state = state;
            reason = "advancing_to_target";
          })

  -- The part of `_navigate` behind the guard and the test for a missing target.
  unfoldable pub drive_to :
      WorkflowStep F → StationPose F → Pose2D F → F → Action (Controller F) (Command F)
  drive_to step target pose now = do
    tolerance ← gets (λ c. c.job.safety.pose_tolerance)
    let delta_x = rt.sub target.x pose.x
    let delta_y = rt.sub target.y pose.y
    let distance = rt.hypot delta_x delta_y
    if rt.le distance tolerance
        then run (complete_step now (format (step.step_id ∷ " reached " ∷ target.station_id ∷ [])))
        else steer_to pose delta_x delta_y distance

  unfoldable pub drive_to_some :
      WorkflowStep F → Option (StationPose F) → Pose2D F → F → Action (Controller F) (Command F)
  drive_to_some step none pose now = step_failure "navigate_target_missing" now
  drive_to_some step (some target) pose now = drive_to step target pose now

  unfoldable pub navigate_step : Pose2D F → RangeInput F → F → Action (Controller F) (Command F)
  navigate_step pose range now = do
    guarded ← run (obstacle_guard range now forward_motion)
    unless_some guarded (do step ← current_step; drive_to_some step step.station pose now)
