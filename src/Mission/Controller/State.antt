-- ===== src/Mission/Controller/State.antt =====
-- The dataclasses of mission.py and the fields of `MissionController`.
use flyto_robotics.Prelude.{ℕ, String, Bool, true, false, Option, none, List, [], ◌∷◌, format}
use flyto_robotics.Prelude.Int.{ℤ, negsuc}
use flyto_robotics.Python.{Runtime}
use flyto_robotics.Contracts.{DeliveryJob}
use flyto_robotics.Workflow.{MissionState, accepted, completed, failed, cancelled, WorkflowPlan}
use flyto_robotics.SemanticMap.Store.{SemanticLocationStore}

pub record Pose2D (F : Type 0) : Type 0 where
  pub x : F
  pub y : F
  pub yaw : F

pub record Command (F : Type 0) : Type 0 where
  pub linear_x : F
  pub angular_z : F
  pub state : MissionState
  pub reason : String

pub record MissionEvent (F : Type 0) : Type 0 where
  pub at_seconds : F
  pub kind : String
  pub state : MissionState
  pub detail : String
  pub sequence : ℕ
  pub step_id : Option String
  pub capability : Option String
  pub actor_id : Option String

pub record HumanDecision (F : Type 0) : Type 0 where
  pub approval_id : String
  pub approved : Bool
  pub actor_id : String
  pub at_seconds : F

pub record Controller (F : Type 0) : Type 0 where
  pub job : DeliveryJob F
  pub workflow : WorkflowPlan F
  pub semantic_map_store : Option (SemanticLocationStore F)
  pub started_at : F
  pub state : MissionState
  pub state_entered_at : F
  pub step_index : ℤ
  pub failure_reason : Option String
  pub obstacle_active : Bool
  pub safety_stop_count : ℕ
  pub line_acquired_at : Option F
  pub line_last_seen_at : Option F
  pub relative_origin : Option (Pose2D F)
  pub turn_origin_yaw : Option F
  pub clear_since : Option F
  pub clearance_blocked : Bool
  pub approval_requests : List String
  pub human_decisions : List (String × HumanDecision F)
  pub human_decision_rejection_count : ℕ
  pub events : List (MissionEvent F)

abbrev pub is_terminal : MissionState → Bool
is_terminal completed = true
is_terminal failed = true
is_terminal cancelled = true
is_terminal _ = false

module _ {F : Type 0} where
  abbrev pub terminal : Controller F → Bool
  terminal c = is_terminal c.state

module _ {F : Type 0} ⦃rt : Runtime F⦄ where
  -- `MissionController(job, workflow=..., semantic_map_store=..., started_at=...)`
  unfoldable pub new :
      DeliveryJob F → WorkflowPlan F → Option (SemanticLocationStore F) → F → Controller F
  new job workflow store started_at = record {
    job = job;
    workflow = workflow;
    semantic_map_store = store;
    started_at = started_at;
    state = accepted;
    state_entered_at = started_at;
    step_index = negsuc 0;
    failure_reason = none;
    obstacle_active = false;
    safety_stop_count = 0;
    line_acquired_at = none;
    line_last_seen_at = none;
    relative_origin = none;
    turn_origin_yaw = none;
    clear_since = none;
    clearance_blocked = false;
    approval_requests = [];
    human_decisions = [];
    human_decision_rejection_count = 0;
    events =
        record {
          at_seconds = rt.decimal 0 1;
          kind = "mission_accepted";
          state = accepted;
          detail = format ("job contract validated; workflow=" ∷ workflow.workflow_id ∷ []);
          sequence = 1;
          step_id = none;
          capability = none;
          actor_id = none;
        }
        ∷ [];
  }
