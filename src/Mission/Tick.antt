-- ===== src/Mission/Tick.antt =====
-- mission.py: `tick` and `result`.
use flyto_robotics.Prelude.{
  ℕ, String, Bool, true, false, Option, none, some, List, [], ◌∷◌, if◌then◌else◌, format,
}
use flyto_robotics.Python.{Runtime, ok, Action, run, gets, modify, ◌>>=◌, ◌>>◌}
use flyto_robotics.LinePerception.{LineScene}
use flyto_robotics.Workflow.{
  MissionState, accepted, completed, state_value, PrimitiveKind, navigate, move_relative,
  turn_relative, dwell, follow_line, wait_until_clear, ask_human, resume, save_current_location,
  navigate_to_location, safe_stop, WorkflowStep,
}
use flyto_robotics.Mission.Ranges.{RangeInput}
use flyto_robotics.Mission.Controller.{
  Pose2D, Command, MissionEvent, Controller, terminal, elapsed, hold, fail, current_step,
  start_next_step, complete_step, step_failure,
}
use flyto_robotics.Mission.Motion.{navigate_step, move_relative_step, turn_relative_step}
use flyto_robotics.Mission.LineFollowing.{follow_line_step}
use flyto_robotics.Mission.Waiting.{
  wait_until_clear_step, ask_human_step, resume_step, save_current_location_step,
}

-- What one tick is given.
pub record TickInput (F : Type 0) : Type 0 where
  pub pose : Pose2D F
  pub range : RangeInput F
  pub now : F
  pub line_scene : Option (LineScene F)

pub record MissionResult (F : Type 0) : Type 0 where
  pub job_id : String
  pub robot_id : String
  pub status : String
  pub reason : Option String
  pub generated_at : String
  pub elapsed_seconds : F
  pub final_state : String
  pub final_pose : Option (Pose2D F)
  pub safety_stop_count : ℕ
  pub events : List (MissionEvent F)

abbrev pub is_accepted : MissionState → Bool
is_accepted accepted = true
is_accepted _ = false

abbrev status_of : MissionState → String
status_of completed = "succeeded"
status_of state = state_value state

module _ {F : Type 0} ⦃rt : Runtime F⦄ where
  unfoldable pub dwell_step : WorkflowStep F → F → Action (Controller F) (Command F)
  dwell_step step now = do
    entered ← gets (λ c. c.state_entered_at)
    if rt.le step.dwell_seconds (rt.sub now entered)
        then run (
            complete_step now (
              format (step.step_id ∷ " held stop for " ∷ rt.fixed 3 step.dwell_seconds ∷ "s" ∷ [])))
        else gets (λ c. hold c step.step_id)

  -- The ladder over `step.kind`. Every kind has its branch, so the source's last line is not reached.
  unfoldable pub perform :
      PrimitiveKind → WorkflowStep F → TickInput F → Action (Controller F) (Command F)
  perform navigate step t = navigate_step t.pose t.range t.now
  perform navigate_to_location step t = navigate_step t.pose t.range t.now
  perform turn_relative step t = turn_relative_step t.pose t.range t.now
  perform move_relative step t = move_relative_step t.pose t.range t.now
  perform follow_line step t = follow_line_step t.line_scene t.range t.now
  perform wait_until_clear step t = wait_until_clear_step t.range t.now
  perform ask_human step t = ask_human_step t.now
  perform resume step t = resume_step t.now
  perform save_current_location step t = save_current_location_step t.pose t.now
  perform dwell step t = dwell_step step t.now
  perform safe_stop step t = dwell_step step t.now

  -- A mission that was only accepted starts its first step.
  unfoldable pub begin : F → Controller F → Controller F
  begin now c = if is_accepted c.state then start_next_step now c else c

  unfoldable pub tick_at : TickInput F → WorkflowStep F → Action (Controller F) (Command F)
  tick_at t step = do
    entered ← gets (λ c. c.state_entered_at)
    if rt.lt step.timeout_seconds (rt.sub t.now entered)
        then step_failure (format ("primitive_timeout:" ∷ step.step_id ∷ [])) t.now
        else perform step.kind step t

  unfoldable pub tick_step : TickInput F → Action (Controller F) (Command F)
  tick_step t = do step ← current_step; tick_at t step

  -- The part of `tick` behind the timeout of the mission.
  unfoldable pub tick_running : TickInput F → Action (Controller F) (Command F)
  tick_running t = modify (begin t.now) >> tick_step t

  unfoldable pub tick : TickInput F → Action (Controller F) (Command F)
  tick t c =
      if terminal c
      then (ok (hold c "terminal"), c)
      else if rt.lt c.job.safety.mission_timeout_seconds (elapsed c t.now)
      then run (fail "mission_timeout" t.now) c
      else tick_running t c

  abbrev rounded : Option (Pose2D F) → Option (Pose2D F)
  rounded none = none
  rounded (some pose) =
      some (record {
        x = rt.round_to 4 pose.x;
        y = rt.round_to 4 pose.y;
        yaw = rt.round_to 4 pose.yaw;
      })

  unfoldable pub result : String → F → Option (Pose2D F) → Controller F → MissionResult F
  result generated_at now pose c = record {
    job_id = c.job.job_id;
    robot_id = c.job.robot_id;
    status = status_of c.state;
    reason = c.failure_reason;
    generated_at = generated_at;
    elapsed_seconds = rt.round_to 3 (elapsed c now);
    final_state = state_value c.state;
    final_pose = rounded pose;
    safety_stop_count = c.safety_stop_count;
    events = c.events;
  }
