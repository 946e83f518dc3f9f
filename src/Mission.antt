-- ===== src/Mission.antt =====
-- flyto_robotics/mission.py: the mission state machine and the decisions around it.
pub mod SensorGate
pub mod Ranges
pub mod Controller
pub mod Guard
pub mod Motion
pub mod LineFollowing
pub mod Waiting
pub mod Tick
pub mod Frame
pub mod Settles
pub mod Steps
pub mod Safety
pub mod Approval
