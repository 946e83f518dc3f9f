-- ===== src/Mission/Approval.antt =====
-- The human gates of mission.py: no sequence of calls takes a mission past an `ask_human` step without
-- an approved decision for it.
pub mod Gate
pub mod Invariant
pub mod Missions
pub mod Completion
use flyto_robotics.Prelude.{
  ℕ, suc, zero, ◌+◌, ◌≤◌, ◌<◌, ◌≡◌, Bool, true, false, Option, none, some, List, [], ◌∷◌, lookup,
  length, get_elem?, String,
}
use flyto_robotics.Prelude.Int.{ℤ, pos, negsuc}
use flyto_robotics.Python.{Runtime}
use flyto_robotics.Workflow.{MissionState, accepted, completed, ask_human, WorkflowStep}
use flyto_robotics.Mission.Controller.{HumanDecision, Controller}
use flyto_robotics.Mission.Waiting.{approval_of}
use flyto_robotics.Mission.Tick.{is_accepted}
use flyto_robotics.Mission.Frame.{Core}

-- The number of steps before the current one.
abbrev pub passed_steps : ℤ → ℕ
passed_steps (pos n) = n
passed_steps (negsuc n) = 0

abbrev pub is_completed : MissionState → Bool
is_completed completed = true
is_completed _ = false

-- A step may not enter the states that only a mission enters at its start and at its end.
abbrev pub is_working : MissionState → Bool
is_working accepted = false
is_working completed = false
is_working _ = true

module _ {F : Type 0} ⦃rt : Runtime F⦄ where
  abbrev pub HasApproval : List (String × HumanDecision F) → WorkflowStep F → Type 0
  HasApproval decisions step =
      (decision : HumanDecision F) × (lookup (approval_of step) decisions ≡ some decision)
      × (decision.approved ≡ true)

  -- A gate is approved; any other step needs no decision.
  abbrev pub IsApproved : List (String × HumanDecision F) → WorkflowStep F → Type 0
  IsApproved decisions step = step.kind ≡ ask_human → HasApproval decisions step

  -- Where a mission stands, as the sequence of calls leaves it.
  pub record IsOnTrack (k : Core F) : Type 0 where
    pub working :
        (n : ℕ) (step : WorkflowStep F)
        → get_elem? k.workflow.steps n ≡ some step
        → is_working step.active_state ≡ true
    pub unstarted : is_accepted k.state ≡ true → k.step_index ≡ negsuc 0
    pub finished : is_completed k.state ≡ true → passed_steps k.step_index ≡ length k.workflow.steps
    pub within : passed_steps k.step_index ≤ length k.workflow.steps
    pub approved :
        (n : ℕ) (step : WorkflowStep F)
        → get_elem? k.workflow.steps n ≡ some step
        → n < passed_steps k.step_index
        → IsApproved k.human_decisions step
