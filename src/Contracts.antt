-- ===== src/Contracts.antt =====
-- flyto_robotics/contracts.py: the records of a delivery job.
use flyto_robotics.Prelude.{String, Bool, Option, List}

pub record StationPose (F : Type 0) : Type 0 where
  pub station_id : String
  pub x : F
  pub y : F
  pub yaw : F

pub record Payload : Type 0 where
  pub payload_id : String
  pub category : String
  pub sealed : Bool

pub record SafetyLimits (F : Type 0) : Type 0 where
  pub max_linear_speed : F
  pub max_angular_speed : F
  pub obstacle_stop_distance : F
  pub lateral_stop_distance : Option F
  pub emergency_stop_distance : F
  pub pose_tolerance : F
  pub mission_timeout_seconds : F
  pub pickup_dwell_seconds : F
  pub dropoff_dwell_seconds : F

pub record DeliveryJob (F : Type 0) : Type 0 where
  pub contract_version : String
  pub job_id : String
  pub robot_id : String
  pub task_type : String
  pub pickup : StationPose F
  pub dropoff : StationPose F
  pub payload : Payload
  pub safety : SafetyLimits F
  pub metadata : List (String × String)
