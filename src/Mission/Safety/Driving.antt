-- ===== src/Mission/Safety/Driving.antt =====
-- What the motion handlers of mission.py command behind the guard: a stop, or the motion of the
-- active step.
use flyto_robotics.Prelude.{◌≡◌, refl, ◌⊎◌, inl, inr, Bool, false, Option, none, some, String}
use flyto_robotics.Python.{Runtime, null, gets, run, modify, ok}
use flyto_robotics.Contracts.{DeliveryJob, StationPose}
use flyto_robotics.LinePerception.{LineScene, LineObservation}
use flyto_robotics.Workflow.{WorkflowStep}
use flyto_robotics.Mission.Controller.{Pose2D, Command, hold, complete_step, step_failure}
use flyto_robotics.Mission.Motion.{
  steer_to, drive_to, drive_to_some, move_on, move_origin, advance_relative, turn_on, turn_origin,
  advance_turn, float_argument, float_argument_or_zero, relative_move_reached, turn_reached,
}
use flyto_robotics.Mission.LineFollowing.{
  Follow, track, await_line, search_next, lose_line, without_line, look_for_line, follow, acquire,
}
use flyto_robotics.Python.Relations.{Respects-run, Respects-modify}
use flyto_robotics.Mission.Settles.{Quiet-gets}
use flyto_robotics.Mission.Settles.MotionHandlers.{Quiet-move_origin, Quiet-turn_origin}
use flyto_robotics.Mission.Settles.LineHandlers.{Quiet-acquire}
use flyto_robotics.Mission.Safety.{
  IsStop, Advances, Follows, Displaces, Turns, IsStop-hold, IsStop-complete_step, Yields,
  Yields-pure, Yields-gets, Yields-run, Yields-if, Yields-test, Yields-bind, Yields-lift,
  Yields-safety, Yields-current_step, Yields-step_failure,
}

module _ {F : Type 0} ⦃rt : Runtime F⦄ (job : DeliveryJob F) (active : WorkflowStep F) where
  -- A stop, or a command of the motion.
  abbrev Or : (Command F → Type 0) → Command F → Type 0
  Or Motion command = IsStop command ⊎ Motion command

  Or-complete :
      (Motion : Command F → Type 0) (now : F) (detail : String)
      → Yields job active (Or Motion) (run (complete_step now detail))
  Or-complete Motion now detail = Yields-run _ (λ c. inl (IsStop-complete_step now detail c))

  Or-hold :
      (Motion : Command F → Type 0) (reason : String)
      → Yields job active (Or Motion) (gets (λ c. hold c reason))
  Or-hold Motion reason = Yields-gets _ (λ c. inl (IsStop-hold c reason))

  Or-failure :
      (Motion : Command F → Type 0) (reason : String) (now : F)
      → Yields job active (Or Motion) (step_failure reason now)
  Or-failure Motion reason now = Yields-step_failure (λ command. inl) reason now

  Advances-steer_to :
      (pose : Pose2D F) (x y d : F) → Yields job active (Or (Advances job)) (steer_to pose x y d)
  unfolding steer_to
  Advances-steer_to pose x y d = Yields-safety _ (
      Yields-bind (gets (λ c. c.state)) _ (Quiet-gets _) λ state. Yields-lift _ _ λ heading _.
        Yields-if _ _ _ (Yields-pure _ (inr (inl refl)))
          (Yields-lift _ _ λ cosine _. Yields-pure _ (inr (inr (_, _, refl)))))

  Advances-drive_to :
      (step : WorkflowStep F) (target : StationPose F) (pose : Pose2D F) (now : F)
      → Yields job active (Or (Advances job)) (drive_to step target pose now)
  unfolding drive_to
  Advances-drive_to step target pose now =
      Yields-bind (gets (λ c. c.job.safety.pose_tolerance)) _ (Quiet-gets _) λ tolerance.
        Yields-if _ _ _ (Or-complete (Advances job) now _) (Advances-steer_to pose _ _ _)

  pub Advances-drive_to_some :
      (step : WorkflowStep F) (o : Option (StationPose F)) (pose : Pose2D F) (now : F)
      → Yields job active (Or (Advances job)) (drive_to_some step o pose now)
  unfolding drive_to_some
  Advances-drive_to_some step none pose now = Or-failure (Advances job) _ now
  Advances-drive_to_some step (some target) pose now = Advances-drive_to step target pose now

  module _ (asked : F) (back : Bool) (given : float_argument_or_zero "distance_m" active ≡ ok asked)
      (way : rt.lt asked (rt.decimal 0 0) ≡ back) where
    Displaces-advance_relative :
        (target progress : F) (origin pose : Pose2D F)
        → float_argument "distance_m" null active ≡ ok target
        → relative_move_reached progress target ≡ false
        → Yields job active
            (Or (Displaces job active back))
            (advance_relative active target progress origin pose)
    unfolding advance_relative
    Displaces-advance_relative target progress origin pose read unreached = Yields-safety _ (
        Yields-bind (gets (λ c. c.state)) _ (Quiet-gets _) λ state. Yields-lift _ _ λ speed _.
          Yields-lift _ _ λ heading _. Yields-pure _ (
            inr (record {
              asked = asked;
              target = target;
              progress = progress;
              speed = speed;
              size = _;
              given = given;
              way = way;
              read = read;
              unreached = unreached;
              toward = refl;
            })))

    pub Displaces-move_on :
        (pose : Pose2D F) (now : F)
        → Yields job active (Or (Displaces job active back)) (move_on pose now)
    unfolding move_on
    Displaces-move_on pose now = Yields-current_step _ (
        Yields-lift _ _ λ target read.
          Yields-bind (run (move_origin active pose now)) _
            (Respects-run _ (Quiet-move_origin active pose now))
            λ origin. Yields-lift _ _ λ c _. Yields-lift _ _ λ s _.
              Yields-test _ _ _ (Or-complete (Displaces job active back) now _)
                (Displaces-advance_relative target _ origin pose read))

  Turns-advance_turn :
      (target turned : F)
      → float_argument "yaw_delta_rad" null active ≡ ok target
      → turn_reached target turned ≡ false
      → Yields job active (Or (Turns job active)) (advance_turn active target turned)
  unfolding advance_turn
  Turns-advance_turn target turned read unreached = Yields-safety _ (
      Yields-bind (gets (λ c. c.state)) _ (Quiet-gets _) λ state. Yields-lift _ _ λ speed _.
        Yields-pure _ (
          inr (record {
            target = target;
            turned = turned;
            speed = speed;
            size = _;
            read = read;
            unreached = unreached;
            in_place = refl;
            toward = refl;
          })))

  pub Turns-turn_on :
      (pose : Pose2D F) (now : F) → Yields job active (Or (Turns job active)) (turn_on pose now)
  unfolding turn_on
  Turns-turn_on pose now = Yields-current_step _ (
      Yields-lift _ _ λ target read.
        Yields-bind (run (turn_origin active pose.yaw now)) _
          (Respects-run _ (Quiet-turn_origin active pose.yaw now))
          λ origin. Yields-lift _ _ λ angle _.
            Yields-test _ _ _ (Or-complete (Turns job active) now _)
              (Turns-advance_turn target _ read))

  Follows-track :
      (f : Follow F) (target : LineObservation F) (now : F)
      → Yields job active (Or (Follows job f.step)) (track f target now)
  unfolding track
  Follows-track f target now =
      Yields-bind (modify (acquire f.step.step_id f.color now)) _
        (Respects-modify _ (Quiet-acquire f.step.step_id f.color now))
        λ u. Yields-safety _ (
          Yields-bind (gets (λ c. c.state)) _ (Quiet-gets _) λ state. Yields-lift _ _ λ speed read.
            Yields-lift _ _ λ gain _.
              Yields-pure _ (inr (record { speed = speed; read = read; forth = inl (_, refl) })))

  Follows-await_line :
      (f : Follow F) (now : F) → Yields job active (Or (Follows job f.step)) (await_line f now)
  unfolding await_line
  Follows-await_line f now =
      Yields-bind (gets (λ c. c.state_entered_at)) _ (Quiet-gets _) λ entered.
        Yields-if _ _ _ (Or-failure (Follows job f.step) _ now) (Or-hold (Follows job f.step) _)

  Follows-search_next : (f : Follow F) → Yields job active (Or (Follows job f.step)) (search_next f)
  unfolding search_next
  Follows-search_next f = Yields-safety _ (
      Yields-bind (gets (λ c. c.state)) _ (Quiet-gets _) λ state.
        Yields-lift _ _ λ speed read.
          Yields-pure _ (inr (record { speed = speed; read = read; forth = inr refl })))

  Follows-lose_line :
      (f : Follow F) (followed_for now : F)
      → Yields job active (Or (Follows job f.step)) (lose_line f followed_for now)
  unfolding lose_line
  Follows-lose_line f followed_for now =
      Yields-bind (gets (λ c. c.line_last_seen_at)) _ (Quiet-gets _) λ seen.
        Yields-lift _ _ λ seconds _. Yields-if _ _ _ (Follows-search_next f) (
          Yields-if _ _ _ (Or-hold (Follows job f.step) _) (
            Yields-if _ _ _ (Or-complete (Follows job f.step) now _)
              (Or-failure (Follows job f.step) _ now)))

  Follows-without_line :
      (f : Follow F) (o : Option F) (followed_for now : F)
      → Yields job active (Or (Follows job f.step)) (without_line f o followed_for now)
  unfolding without_line
  Follows-without_line f none followed_for now = Follows-await_line f now
  Follows-without_line f (some at) followed_for now = Follows-lose_line f followed_for now

  Follows-look_for_line :
      (f : Follow F) (target : Option (LineObservation F)) (o : Option F) (followed_for now : F)
      → Yields job active (Or (Follows job f.step)) (look_for_line f target o followed_for now)
  unfolding look_for_line
  Follows-look_for_line f none o followed_for now = Follows-without_line f o followed_for now
  Follows-look_for_line f (some target) o followed_for now =
      Yields-if target.visible _ _ (Follows-track f target now)
        (Follows-without_line f o followed_for now)

  pub Follows-follow :
      (f : Follow F) (scene : Option (LineScene F)) (now : F)
      → Yields job active (Or (Follows job f.step)) (follow f scene now)
  unfolding follow
  Follows-follow f scene now = Yields-bind (gets (λ c. c.line_acquired_at)) _ (Quiet-gets _) λ at.
      Yields-if _ _ _ (Or-complete (Follows job f.step) now _) (Follows-look_for_line f _ at _ now)
