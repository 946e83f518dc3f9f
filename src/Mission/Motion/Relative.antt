-- ===== src/Mission/Motion/Relative.antt =====
-- mission.py: `_move_relative` and `_turn_relative`.
use flyto_robotics.Prelude.{Bool, Option, none, some, [], ◌∷◌, ◌&&◌, if◌then◌else◌, format}
use flyto_robotics.Python.{
  Runtime, null, number, fmin, fmax, sine, cosine, Action, pure, lift, run, gets, unless_some,
  ◌>>=◌,
}
use flyto_robotics.Workflow.{WorkflowStep}
use flyto_robotics.Mission.Ranges.{RangeInput, forward_motion, reverse_motion, rotation}
use flyto_robotics.Mission.Controller.{
  Pose2D, Command, Controller, current_step, complete_step, record_event,
}
use flyto_robotics.Mission.Guard.{obstacle_guard}
use flyto_robotics.Mission.Motion.Arithmetic.{
  normalize_angle, clamp, relative_move_reached, float_argument, float_argument_or_zero,
}

module _ {F : Type 0} ⦃rt : Runtime F⦄ where
  unfoldable pub origin_from :
      Option (Pose2D F) → WorkflowStep F → Pose2D F → F → Controller F → Pose2D F × Controller F
  origin_from (some origin) step pose now c = (origin, c)
  origin_from none step pose now c = (
    pose,
    record_event now "relative_origin_captured"
        (format (step.step_id ∷ " captured trusted odometry origin" ∷ []))
        (record c { relative_origin = some pose }),
  )

  -- The odometry origin of a relative move is captured once, with an event.
  unfoldable pub move_origin :
      WorkflowStep F → Pose2D F → F → Controller F → Pose2D F × Controller F
  unfolding origin_from
  move_origin step pose now c = origin_from c.relative_origin step pose now c

  unfoldable pub yaw_from : Option F → WorkflowStep F → F → F → Controller F → F × Controller F
  yaw_from (some origin) step yaw now c = (origin, c)
  yaw_from none step yaw now c = (
    yaw,
    record_event now "relative_origin_captured"
        (format (step.step_id ∷ " captured trusted odometry yaw" ∷ []))
        (record c { turn_origin_yaw = some yaw }),
  )

  unfoldable pub turn_origin : WorkflowStep F → F → F → Controller F → F × Controller F
  unfolding yaw_from
  turn_origin step yaw now c = yaw_from c.turn_origin_yaw step yaw now c

  unfoldable pub advance_relative :
      WorkflowStep F → F → F → Pose2D F → Pose2D F → Action (Controller F) (Command F)
  advance_relative step target progress origin pose = do
    safety ← gets (λ c. c.job.safety)
    state ← gets (λ c. c.state)
    let remaining = rt.sub target progress
    speed ← lift (float_argument "speed" (number (rt.decimal 12 2)) step)
    let speed_limit = fmin safety.max_linear_speed speed
    let linear =
        rt.copysign
          (fmin speed_limit (fmax (rt.decimal 2 2) (rt.mul (rt.decimal 8 1) (rt.abs remaining))))
          remaining
    heading_error ← lift (normalize_angle (rt.sub origin.yaw pose.yaw))
    pure (record {
      linear_x = linear;
      angular_z =
          clamp (rt.mul (rt.decimal 18 1) heading_error) (rt.neg safety.max_angular_speed)
            safety.max_angular_speed;
      state = state;
      reason = "moving_relative";
    })

  -- The part of `_move_relative` behind the guard.
  unfoldable pub move_on : Pose2D F → F → Action (Controller F) (Command F)
  move_on pose now = do
    step ← current_step
    target ← lift (float_argument "distance_m" null step)
    origin ← run (move_origin step pose now)
    let delta_x = rt.sub pose.x origin.x
    let delta_y = rt.sub pose.y origin.y
    c ← lift (cosine origin.yaw)
    s ← lift (sine origin.yaw)
    let progress = rt.add (rt.mul delta_x c) (rt.mul delta_y s)
    if relative_move_reached progress target
        then run (
            complete_step now (
              format (
                step.step_id
                ∷ " moved "
                ∷ rt.fixed 3 progress
                ∷ "m toward "
                ∷ rt.fixed 3 target
                ∷ "m"
                ∷ [])))
        else advance_relative step target progress origin pose

  unfoldable pub move_relative_step :
      Pose2D F → RangeInput F → F → Action (Controller F) (Command F)
  move_relative_step pose range now = do
    step ← current_step
    distance ← lift (float_argument_or_zero "distance_m" step)
    guarded ← run (
        obstacle_guard range now
          (if rt.lt distance (rt.decimal 0 0) then reverse_motion else forward_motion))
    unless_some guarded (move_on pose now)

  -- A turn past half a circle is not read as the short way round.
  unfoldable pub unwrap : F → F → F
  unwrap target turned =
      if rt.lt (rt.decimal 0 1) target && rt.lt turned (rt.div (rt.neg rt.pi) (rt.decimal 2 0))
      then rt.add turned (rt.mul (rt.decimal 20 1) rt.pi)
      else if rt.lt target (rt.decimal 0 1) && rt.lt (rt.div rt.pi (rt.decimal 2 0)) turned
      then rt.sub turned (rt.mul (rt.decimal 20 1) rt.pi)
      else turned

  unfoldable pub turn_reached : F → F → Bool
  turn_reached target turned =
      if rt.lt (rt.decimal 0 1) target
      then rt.le (rt.sub target (rt.decimal 35 3)) turned
      else rt.le turned (rt.add target (rt.decimal 35 3))

  unfoldable pub advance_turn : WorkflowStep F → F → F → Action (Controller F) (Command F)
  advance_turn step target turned = do
    safety ← gets (λ c. c.job.safety)
    state ← gets (λ c. c.state)
    let remaining = rt.sub target turned
    speed ← lift (float_argument "angular_speed" (number (rt.decimal 6 1)) step)
    let speed_limit = fmin safety.max_angular_speed speed
    pure (record {
      linear_x = rt.decimal 0 1;
      angular_z =
          rt.copysign
            (fmin speed_limit (fmax (rt.decimal 8 2) (rt.mul (rt.decimal 18 1) (rt.abs remaining))))
            remaining;
      state = state;
      reason = "turning_relative";
    })

  -- The part of `_turn_relative` behind the guard.
  unfoldable pub turn_on : Pose2D F → F → Action (Controller F) (Command F)
  turn_on pose now = do
    step ← current_step
    target ← lift (float_argument "yaw_delta_rad" null step)
    origin_yaw ← run (turn_origin step pose.yaw now)
    angle ← lift (normalize_angle (rt.sub pose.yaw origin_yaw))
    let turned = unwrap target angle
    if turn_reached target turned
        then run (
            complete_step now (
              format (
                step.step_id
                ∷ " turned "
                ∷ rt.fixed 3 turned
                ∷ "rad toward "
                ∷ rt.fixed 3 target
                ∷ "rad"
                ∷ [])))
        else advance_turn step target turned

  unfoldable pub turn_relative_step :
      Pose2D F → RangeInput F → F → Action (Controller F) (Command F)
  turn_relative_step pose range now = do
    guarded ← run (obstacle_guard range now rotation)
    unless_some guarded (turn_on pose now)
