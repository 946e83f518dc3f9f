-- ===== src/Examples/Policies.antt =====
-- The policies and the bridge guard on concrete inputs, as tests and as witnesses.
use flyto_robotics.Prelude.{
  sort_by, String, ◌↔◌, Option, ◌≡◌, refl, ◌++◌, ◌+◌, ◌-◌, ◌&&◌, ◌||◌, not, is_some, str_eq, true,
  false, none, some, List, [], ◌∷◌, All,
}
use flyto_robotics.Prelude.Int.{ℤ, pos, negsuc}
use flyto_robotics.Python.{text, number, object, end, entry, ok}
use flyto_robotics.Python.Checks.{OkAnd}
use flyto_robotics.BridgeGuard.{
  StartupSignalGuard, forward_signal, force_stop, GuardCall, observes, signals, ticks, new_guard,
  guard_tick, guard_calls, ready, deadline_passed, infer_expected_markers, shell_exit_code,
  marker_matches, guard_call, observe_output, handle_signal,
}
use flyto_robotics.BridgeGuard.Forwarding.{
  forwards, stops, count, signals_in, guard_calls_effects, guard_tick_due,
}
use flyto_robotics.BridgeGuard.Origin.{IsOf, first_signal, guard_calls-first_signal}
use flyto_robotics.BridgeGuard.Supervisor.{
  InboxCall, records, drains, inbox_calls, recorded, inbox_calls_order, ProcessGroupSupervisor,
  SupervisorCall, supervisor_calls, supervisor_calls_kill, kills, once,
}
use flyto_robotics.BridgeGuard.Supervisor
use flyto_robotics.DependencyPolicy.{DependencyContract, from_mapping}
use flyto_robotics.DependencyPolicy.Validity.{IsContract, from_mapping-IsContract}
use flyto_robotics.DependencyPolicy.Assessment.{Observation, assess_device_dependency}
use flyto_robotics.DependencyPolicy.Consistency.{
  IsConsistent, IsConsistent-assess_device_dependency,
}
use flyto_robotics.Contracts.{StationPose}
use flyto_robotics.SemanticMap.Store.{SemanticLocationStore, load, remember, remembered}
use flyto_robotics.Capabilities.{safe_text}
use flyto_robotics.SemanticMap.Recall.{load-remember}
use flyto_robotics.SemanticMap.{SemanticLocationMap, label_items}
use flyto_robotics.Mission.SensorGate.{
  GateInput, fresh, evaluate_sensor_gate, ready as ready_to_drive, fail_stale, fail_not_ready,
  unready_sensors,
}
use flyto_robotics.Mission.SensorGate.Readiness.{
  may_drive, IsSeen, evaluate_sensor_gate_lem, unready_sensors_lem,
}
use flyto_robotics.CmdVelPolicy.{resolve_cmd_vel_type, resolve_cmd_vel_type_lem}
use flyto_robotics.Examples.Milli.{milli}

markers_test : infer_expected_markers ("/clock@rosgraph[gz" ∷ "/x" ∷ "--ros-args" ∷ "a@b]" ∷ []) ≡ 1
unfolding infer_expected_markers
markers_test = refl

exit_code_test : shell_exit_code (negsuc 14) ≡ pos 143
unfolding shell_exit_code
exit_code_test = refl

abbrev guard : StartupSignalGuard ℤ
guard = record {
  expected_markers = pos 1;
  started_at = pos 0;
  startup_deadline_seconds = pos 8000;
  quiet_period_seconds = pos 350;
  marker_count = 0;
  last_marker_at = none;
  pending_signal = none;
  signal_count = 0;
  forwarded = false;
}

guard_test : new_guard (pos 1) (pos 0) (pos 8000) (pos 350) ≡ ok guard
unfolding new_guard
guard_test = refl

-- A signal while the bridge starts, the marker, and a second signal behind the quiet period.
abbrev startup : List (GuardCall ℤ)
startup =
    signals 15 (pos 100)
    ∷ observes "Creating ROS Bridge" (pos 200)
    ∷ ticks (pos 600)
    ∷ signals 2 (pos 700)
    ∷ []

startup_test : (guard_calls startup guard).0 ≡ forward_signal 15 "ready" ∷ force_stop ∷ []
unfolding guard_calls guard_call observe_output handle_signal marker_matches
startup_test = refl

guard_calls_effects_example :
    (forwards (guard_calls startup guard).0 ≡ count (guard_calls startup guard).1.forwarded)
    × (stops (guard_calls startup guard).0 ≡ signals_in startup - 1)
guard_calls_effects_example =
    guard_calls_effects (pos 1) (pos 0) (pos 8000) (pos 350) guard startup guard_test

guard_calls-first_signal_example : All (IsOf (first_signal startup)) (guard_calls startup guard).0
guard_calls-first_signal_example =
    guard_calls-first_signal (pos 1) (pos 0) (pos 8000) (pos 350) guard startup guard_test

abbrev late : StartupSignalGuard ℤ
late = record guard { pending_signal = some 15; signal_count = 1 }

guard_tick_due_example :
    forwards (guard_tick (pos 9000) late).0
    ≡ count (
        is_some late.pending_signal
        && not late.forwarded
        && (ready (pos 9000) late || deadline_passed (pos 9000) late))
guard_tick_due_example = guard_tick_due (pos 9000) late

abbrev inbox_run : List InboxCall
inbox_run = records 15 ∷ records 2 ∷ drains ∷ records 15 ∷ []

inbox_calls_order_example :
    (inbox_calls inbox_run (record { queued = 1 ∷ [] })).0
      ++ (inbox_calls inbox_run (record { queued = 1 ∷ [] })).1.queued
    ≡ (1 ∷ []) ++ recorded inbox_run
inbox_calls_order_example = inbox_calls_order inbox_run (record { queued = 1 ∷ [] })

abbrev shutdown : List (SupervisorCall ℤ)
shutdown =
    Supervisor.forwards 15 (pos 0)
    ∷ Supervisor.ticks (pos 9000) true
    ∷ Supervisor.forces
    ∷ Supervisor.cleans true
    ∷ []

abbrev supervisor : ProcessGroupSupervisor ℤ
supervisor = record { shutdown_grace_seconds = pos 5000; shutdown_deadline = none; forced = false }

supervisor_calls_kill_example :
    kills (supervisor_calls shutdown supervisor).0 + once supervisor.forced
    ≡ once (supervisor_calls shutdown supervisor).1.forced
supervisor_calls_kill_example =
    supervisor_calls_kill shutdown supervisor (refl, (tt, (tt, (tt, tt))))

abbrev contract : DependencyContract ℤ
contract = record {
  safety_impact = "stop";
  task_impact = "block";
  evidence_requirement = "record";
  substitution_mode = "none";
  minimum_confidence = pos 500;
  max_age_seconds = pos 1000;
  recovery_timeout_seconds = pos 0;
  retry_limit = pos 0;
  active_phases = "*" ∷ [];
}

abbrev lost : Observation ℤ
lost = record {
  healthy = false;
  confidence = number (pos 900);
  observation_age_seconds = number (pos 100);
  fallback_available = false;
  fallback_equivalent = false;
  fallback_validated = false;
  evidence_present = true;
  phase = "*";
}

IsConsistent-assess_device_dependency_example :
    OkAnd (IsConsistent contract) (assess_device_dependency contract lost)
IsConsistent-assess_device_dependency_example = IsConsistent-assess_device_dependency contract lost

from_mapping-IsContract_example :
    OkAnd IsContract
      (from_mapping (object (entry "safety_impact" (text "stop") end)) (some contract))
from_mapping-IsContract_example =
    from_mapping-IsContract (entry "safety_impact" (text "stop") end) (some contract)

resolve_cmd_vel_type_lem_example :
    ((resolve_cmd_vel_type "auto" [] false true).provisional ≡ true)
    × (str_eq (resolve_cmd_vel_type "auto" [] false true).message_type "" ≡ false)
resolve_cmd_vel_type_lem_example = resolve_cmd_vel_type_lem "auto" [] false true refl

abbrev empty_store : SemanticLocationStore ℤ
empty_store = record { map_id = "ward"; contents = none; write_fault = none }

abbrev here : StationPose ℤ
here = record { station_id = ""; x = pos 1000; y = pos 2000; yaw = pos 0 }

abbrev bed_map : SemanticLocationMap ℤ
bed_map = record {
  map_id = "ward";
  revision = 1;
  locations =
      record {
        location_id = "bed-1";
        labels = "bed" ∷ [];
        pose = record { station_id = "bed-1"; x = pos 1000; y = pos 2000; yaw = pos 0 };
      }
      ∷ [];
}

bed_test : (remember empty_store "bed-1" "bed" here (some 0)).0 ≡ ok bed_map
unfolding remember remembered load safe_text sort_by
bed_test = refl

load-remember_example : load (remember empty_store "bed-1" "bed" here (some 0)).1 ≡ ok bed_map
unfolding label_items
load-remember_example = load-remember empty_store "bed-1" "bed" here (some 0) bed_map refl bed_test

abbrev waking : GateInput ℤ
waking = record {
  samples_present = true;
  oldest_sample_age = pos 200;
  ready_duration = pos 400;
  startup_elapsed = pos 16000;
  startup_grace = pos 15000;
  freshness_timeout = pos 1000;
  stabilization_seconds = pos 1000;
  control_started = false;
}

waking_test : evaluate_sensor_gate waking ≡ fail_not_ready
unfolding evaluate_sensor_gate
waking_test = refl

evaluate_sensor_gate_lem_example :
    ((evaluate_sensor_gate waking ≡ ready_to_drive) ↔ (may_drive waking ≡ true))
    × ((evaluate_sensor_gate waking ≡ fail_stale)
        ↔ ((waking.control_started && not (fresh waking)) ≡ true))
    × ((evaluate_sensor_gate waking ≡ fail_not_ready) ↔ (
        (not waking.control_started
          && not (may_drive waking)
          && milli.lt waking.startup_grace waking.startup_elapsed)
        ≡ true))
evaluate_sensor_gate_lem_example = evaluate_sensor_gate_lem waking

abbrev sensors : List (String × Option ℤ)
sensors = ("odom", some (pos 900)) ∷ ("scan", none) ∷ []

unready_sensors_lem_example :
    (unready_sensors sensors (pos 1000) (pos 500) ≡ []) ↔ All (IsSeen (pos 1000) (pos 500)) sensors
unready_sensors_lem_example = unready_sensors_lem sensors (pos 1000) (pos 500)
