-- ===== src/Mission/SensorGate.antt =====
-- mission.py: sensor readiness before and after the first control command.
pub mod Readiness
use flyto_robotics.Prelude.{
  String, Bool, ◌&&◌, Option, none, some, List, [], ◌∷◌, ◌++◌, if◌then◌else◌, format,
}
use flyto_robotics.Python.{Runtime}

pub data SensorGateDecision : Type 0 where
  wait ready fail_not_ready fail_stale : SensorGateDecision

pub record GateInput (F : Type 0) : Type 0 where
  pub samples_present : Bool
  pub oldest_sample_age : F
  pub ready_duration : F
  pub startup_elapsed : F
  pub startup_grace : F
  pub freshness_timeout : F
  pub stabilization_seconds : F
  pub control_started : Bool

module _ {F : Type 0} ⦃rt : Runtime F⦄ where
  abbrev pub fresh : GateInput F → Bool
  fresh g = g.samples_present && rt.le g.oldest_sample_age g.freshness_timeout

  unfoldable pub evaluate_sensor_gate : GateInput F → SensorGateDecision
  evaluate_sensor_gate g =
      if g.control_started
      then (if fresh g then ready else fail_stale)
      else if fresh g && rt.le g.stabilization_seconds g.ready_duration
      then ready
      else if rt.lt g.startup_grace g.startup_elapsed
      then fail_not_ready
      else wait

  -- The line for one sensor, if it is missing or stale.
  unfoldable pub sensor_report : F → F → String → Option F → List String
  sensor_report now timeout name none = format (name ∷ ": never arrived" ∷ []) ∷ []
  sensor_report now timeout name (some sample_time) =
      let age = rt.sub now sample_time in
      if rt.lt timeout age
      then format (name ∷ ": last sample " ∷ rt.fixed 1 age ∷ "s ago" ∷ []) ∷ []
      else []

  unfoldable pub unready_sensors : List (String × Option F) → F → F → List String
  unfolding sensor_report
  unready_sensors [] now timeout = []
  unready_sensors ((name, seen) ∷ sensors) now timeout =
      sensor_report now timeout name seen ++ unready_sensors sensors now timeout
