-- ===== src/Examples/Missions.antt =====
-- A mission with a human gate: navigate, ask, resume. Its calls, as tests and as witnesses.
use flyto_robotics.Prelude.{◌≡◌, ◌↔◌, refl, ap, length, true, none, some, List, [], ◌∷◌, arith}
use flyto_robotics.Prelude.Int.{ℤ, pos, negsuc}
use flyto_robotics.Python.{text, ◌>>=◌, to_str}
use flyto_robotics.Contracts.{DeliveryJob, StationPose}
use flyto_robotics.Workflow.{
  navigating, waiting_for_human, navigate, ask_human, completed, WorkflowStep, WorkflowPlan,
  argument,
}
use flyto_robotics.Mission.Ranges.{single, RangeInput}
use flyto_robotics.Capabilities.{safe_text}
use flyto_robotics.Mission.Guard.{obstacle_guard, act_on, clear_obstacle}
use flyto_robotics.Mission.Motion.{navigate_step, drive_to_some, drive_to}
use flyto_robotics.Mission.Waiting.{ask_human_step, request_approval, act_on_decision}
use flyto_robotics.Mission.Controller.{
  new, Controller, submit_human_decision, elapsed, current_step, active_step, start_next_step,
  start_or_complete, complete_step, record_full, hold,
}
use flyto_robotics.Mission.Tick.{TickInput, tick, tick_running, tick_step, tick_at, begin, perform}
use flyto_robotics.Mission.Steps.{Call, ticks, decides, calls, call}
use flyto_robotics.Mission.Ranges.{forward_motion, as_field}
use flyto_robotics.Mission.Controller.{is_terminal}
use flyto_robotics.Mission.Guard.{obstruction, nearer}
use flyto_robotics.Mission.Frame.{IsNumbered}
use flyto_robotics.Mission.Steps.{calls-terminal}
use flyto_robotics.Mission.Steps.Trail.{Trail, Trail-calls, calls-IsNumbered}
use flyto_robotics.Mission.Safety.{OkAnd, IsStop}
use flyto_robotics.Mission.Safety.Stops.{IsClear, obstruction-IsClear, tick_emergency}
use flyto_robotics.Mission.Approval.{HasApproval, passed_steps, is_completed}
use flyto_robotics.Mission.Approval.Completion.{
  passed_gate-HasApproval, completed_passes_all, completed-HasApproval,
}
use flyto_robotics.Examples.Milli.{milli}

abbrev pub pickup : StationPose ℤ
pickup = record { station_id = "pharmacy"; x = pos 0; y = pos 0; yaw = pos 0 }

abbrev pub job : DeliveryJob ℤ
job = record {
  contract_version = "flyto.robotics.job.v1";
  job_id = "job-1";
  robot_id = "robot-1";
  task_type = "hospital_delivery";
  pickup = pickup;
  dropoff = record { station_id = "ward"; x = pos 2000; y = pos 0; yaw = pos 0 };
  payload = record { payload_id = "p"; category = "medication"; sealed = true };
  safety = record {
    max_linear_speed = pos 250;
    max_angular_speed = pos 800;
    obstacle_stop_distance = pos 550;
    lateral_stop_distance = none;
    emergency_stop_distance = pos 80;
    pose_tolerance = pos 250;
    mission_timeout_seconds = pos 180000;
    pickup_dwell_seconds = pos 2000;
    dropoff_dwell_seconds = pos 2000;
  };
  metadata = [];
}

abbrev pub drive : WorkflowStep ℤ
drive = record {
  step_id = "drive";
  kind = navigate;
  active_state = navigating;
  station = some pickup;
  dwell_seconds = pos 0;
  arguments = [];
  timeout_seconds = pos 60000;
  on_failure = "abort";
}

abbrev pub ask : WorkflowStep ℤ
ask = record {
  step_id = "ask";
  kind = ask_human;
  active_state = waiting_for_human;
  station = none;
  dwell_seconds = pos 0;
  arguments = ("approval_id", text "handoff") ∷ [];
  timeout_seconds = pos 60000;
  on_failure = "abort";
}

abbrev pub plan : WorkflowPlan ℤ
plan = record {
  workflow_id = "gated";
  steps = drive ∷ ask ∷ [];
  goal = "";
  source_kind = "deterministic";
}

abbrev pub start : Controller ℤ
start = new job plan none (pos 0)

abbrev pub at_time : ℤ → RangeInput ℤ → TickInput ℤ
at_time now range = record {
  pose = record { x = pos 100; y = pos 0; yaw = pos 0 };
  range = range;
  now = now;
  line_scene = none;
}

-- Arrive, ask, wait, get the approval, and finish.
abbrev pub approved_run : List (Call ℤ)
approved_run =
    ticks (at_time (pos 1000) (single (pos 2000)))
    ∷ ticks (at_time (pos 2000) (single (pos 2000)))
    ∷ decides "handoff" true "nurse" (pos 3000)
    ∷ ticks (at_time (pos 4000) (single (pos 2000)))
    ∷ []

approved_run_state : (calls approved_run start).state ≡ completed
unfolding calls call tick submit_human_decision new elapsed tick_running ◌>>=◌ tick_step
    current_step active_step begin start_next_step start_or_complete tick_at perform navigate_step
    obstacle_guard drive_to_some drive_to complete_step ask_human_step request_approval
    act_on_decision record_full argument to_str safe_text hold clear_obstacle act_on
approved_run_state = refl

abbrev blocked : TickInput ℤ
blocked = at_time (pos 1000) (single (pos 70))

-- The robot is under way: the first tick has started the step, and the target is out of reach.
abbrev far_off : TickInput ℤ
far_off = record {
  pose = record { x = negsuc 2999; y = pos 0; yaw = pos 0 };
  range = single (pos 2000);
  now = pos 1000;
  line_scene = none;
}

tick_emergency_example : OkAnd IsStop (tick blocked start).0
unfolding nearer as_field new
tick_emergency_example = tick_emergency blocked start refl

obstruction-IsClear_example :
    (obstruction job.safety (as_field (single (pos 2000))) forward_motion ≡ none)
    ↔ IsClear job.safety (as_field (single (pos 2000))) forward_motion
obstruction-IsClear_example =
    obstruction-IsClear job.safety (as_field (single (pos 2000))) forward_motion

Trail-calls_example : Trail start (calls approved_run start)
Trail-calls_example = Trail-calls approved_run start

calls-IsNumbered_example : IsNumbered 0 (calls approved_run (new job plan none (pos 0))).events
calls-IsNumbered_example = calls-IsNumbered job plan none (pos 0) approved_run

calls-terminal_example : calls approved_run (calls approved_run start) ≡ calls approved_run start
calls-terminal_example =
    calls-terminal approved_run (calls approved_run start) (ap is_terminal approved_run_state)

passed_gate-HasApproval_example :
    HasApproval (calls approved_run (new job plan none (pos 0))).human_decisions ask
passed_gate-HasApproval_example =
    passed_gate-HasApproval job plan none (pos 0) approved_run 1 ask (refl, (refl, tt)) refl refl
      (omega (
        arith,
        completed_passes_all job plan none (pos 0) approved_run (refl, (refl, tt))
            (ap is_completed approved_run_state),
      ))

completed_passes_all_example :
    passed_steps (calls approved_run (new job plan none (pos 0))).step_index ≡ length plan.steps
completed_passes_all_example =
    completed_passes_all job plan none (pos 0) approved_run (refl, (refl, tt))
      (ap is_completed approved_run_state)

completed-HasApproval_example :
    HasApproval (calls approved_run (new job plan none (pos 0))).human_decisions ask
completed-HasApproval_example =
    completed-HasApproval job plan none (pos 0) approved_run 1 ask (refl, (refl, tt))
      (ap is_completed approved_run_state) refl refl
