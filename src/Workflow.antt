-- ===== src/Workflow.antt =====
-- flyto_robotics/workflow.py: mission primitives, plans, and the delivery workflow.
use flyto_robotics.Prelude.{
  String, Bool, true, false, not, ◌&&◌, ◌||◌, Option, none, some, List, [], ◌∷◌, map, is_some,
  lookup_last, contains, str_eq,
}
use flyto_robotics.Python.{Value, null, integer, number, Runtime, fmax, Result, ok, value_error}
use flyto_robotics.Python.Checks.{raise_if, ◌>>◌}
use flyto_robotics.Contracts.{StationPose, DeliveryJob}

pub data MissionState : Type 0 where
  accepted navigating moving_relative turning_relative navigating_to_pickup : MissionState
  waiting_for_pickup navigating_to_dropoff waiting_for_dropoff following_line : MissionState
  waiting waiting_for_clear waiting_for_human resuming saving_location : MissionState
  navigating_to_location stopped completed failed cancelled : MissionState

pub data PrimitiveKind : Type 0 where
  navigate move_relative turn_relative dwell follow_line wait_until_clear : PrimitiveKind
  ask_human resume save_current_location navigate_to_location safe_stop : PrimitiveKind

-- `kind.value`
unfoldable pub kind_value : PrimitiveKind → String
kind_value navigate = "navigate"
kind_value move_relative = "move_relative"
kind_value turn_relative = "turn_relative"
kind_value dwell = "dwell"
kind_value follow_line = "follow_line"
kind_value wait_until_clear = "wait_until_clear"
kind_value ask_human = "ask_human"
kind_value resume = "resume"
kind_value save_current_location = "save_current_location"
kind_value navigate_to_location = "navigate_to_location"
kind_value safe_stop = "safe_stop"

-- `state.value`
unfoldable pub state_value : MissionState → String
state_value accepted = "accepted"
state_value navigating = "navigating"
state_value moving_relative = "moving_relative"
state_value turning_relative = "turning_relative"
state_value navigating_to_pickup = "navigating_to_pickup"
state_value waiting_for_pickup = "waiting_for_pickup"
state_value navigating_to_dropoff = "navigating_to_dropoff"
state_value waiting_for_dropoff = "waiting_for_dropoff"
state_value following_line = "following_line"
state_value waiting = "waiting"
state_value waiting_for_clear = "waiting_for_clear"
state_value waiting_for_human = "waiting_for_human"
state_value resuming = "resuming"
state_value saving_location = "saving_location"
state_value navigating_to_location = "navigating_to_location"
state_value stopped = "stopped"
state_value completed = "completed"
state_value failed = "failed"
state_value cancelled = "cancelled"

pub record WorkflowStep (F : Type 0) : Type 0 where
  pub step_id : String
  pub kind : PrimitiveKind
  pub active_state : MissionState
  pub station : Option (StationPose F)
  pub dwell_seconds : F
  pub arguments : List (String × Value F)
  pub timeout_seconds : F
  pub on_failure : String

pub record WorkflowPlan (F : Type 0) : Type 0 where
  pub workflow_id : String
  pub steps : List (WorkflowStep F)
  pub goal : String
  pub source_kind : String

abbrev pub is_dwell : PrimitiveKind → Bool
is_dwell dwell = true
is_dwell _ = false

abbrev pub is_navigate : PrimitiveKind → Bool
is_navigate navigate = true
is_navigate navigate_to_location = true
is_navigate _ = false

-- `len(set(xs)) == len(xs)`
abbrev pub distinct : List String → Bool
distinct [] = true
distinct (x ∷ xs) = not (contains x xs) && distinct xs

module _ {F : Type 0} where
  -- `dict(self.arguments).get(name)`
  unfoldable pub argument : String → WorkflowStep F → Option (Value F)
  argument name s = lookup_last name s.arguments

  -- `self.argument(name) is None`
  abbrev pub is_none : Option (Value F) → Bool
  is_none none = true
  is_none (some null) = true
  is_none (some _) = false

module _ {F : Type 0} ⦃rt : Runtime F⦄ where
  -- `isinstance(value, (int, float))`, no bool, and `low <= abs(float(value)) <= high`
  bounded_magnitude : F → F → Option (Value F) → Bool
  bounded_magnitude low high (some (integer z)) =
      rt.le low (rt.abs (rt.of_integer z)) && rt.le (rt.abs (rt.of_integer z)) high
  bounded_magnitude low high (some (number x)) = rt.le low (rt.abs x) && rt.le (rt.abs x) high
  bounded_magnitude low high _ = false

  -- The tests of `__post_init__` that depend on the kind and read the arguments.
  check_arguments : PrimitiveKind → WorkflowStep F → Result (Unit {0})
  unfolding bounded_magnitude argument kind_value
  check_arguments move_relative s =
      raise_if
        (not (bounded_magnitude (rt.decimal 1 2) (rt.decimal 20 1) (argument "distance_m" s)))
        (value_error "move_relative primitives require distance_m between -2.0 and 2.0")
  check_arguments turn_relative s =
      raise_if
        (not (bounded_magnitude (rt.decimal 5 2) (rt.decimal 30 1) (argument "yaw_delta_rad" s)))
        (value_error "turn_relative primitives require yaw_delta_rad between -3.0 and 3.0")
  check_arguments follow_line s =
      raise_if (is_none (argument "color" s)) (value_error "follow_line primitives require a color")
  check_arguments ask_human s =
      raise_if (is_none (argument "approval_id" s))
        (value_error "ask_human primitives require an approval_id")
  check_arguments resume s =
      raise_if (is_none (argument "approval_id" s))
        (value_error "resume primitives require an approval_id")
  check_arguments save_current_location s =
      raise_if (is_none (argument "location_id" s) || is_none (argument "label" s))
        (value_error "save_current_location primitives require location_id and label")
  check_arguments _ s = ok tt

  -- `WorkflowStep.__post_init__`
  unfoldable pub check_step : WorkflowStep F → Result (Unit {0})
  unfolding check_arguments
  check_step s = do
    raise_if (str_eq s.step_id "") (value_error "workflow step_id is required")
    raise_if (rt.le s.timeout_seconds (rt.decimal 0 1))
        (value_error "timeout_seconds must be positive")
    raise_if (not (contains s.on_failure ("abort" ∷ "request_replan" ∷ [])))
        (value_error "unsupported on_failure policy")
    raise_if (is_dwell s.kind && rt.lt s.dwell_seconds (rt.decimal 0 1))
        (value_error "dwell_seconds cannot be negative")
    raise_if (is_navigate s.kind && not (rt.eq s.dwell_seconds (rt.decimal 0 1)))
        (value_error "navigate primitives cannot define dwell_seconds")
    raise_if (is_navigate s.kind && not (is_some s.station))
        (value_error "navigate primitives require a station")
    check_arguments s.kind s
    raise_if (not (distinct (map (λ a. a.0) s.arguments)))
        (value_error "workflow argument names must be unique")

  is_empty : List (WorkflowStep F) → Bool
  is_empty [] = true
  is_empty (s ∷ steps) = false

  -- `WorkflowPlan.__post_init__`
  unfoldable pub check_plan : WorkflowPlan F → Result (Unit {0})
  unfolding is_empty
  check_plan p = do
    raise_if (str_eq p.workflow_id "") (value_error "workflow_id is required")
    raise_if (is_empty p.steps) (value_error "a workflow requires at least one primitive")
    raise_if (not (distinct (map (λ s. s.step_id) p.steps)))
        (value_error "workflow step_id values must be unique")

  check_steps : List (WorkflowStep F) → Result (Unit {0})
  check_steps [] = ok tt
  check_steps (s ∷ steps) = check_step s >> check_steps steps

  delivery_step : String → PrimitiveKind → MissionState → StationPose F → F → F → WorkflowStep F
  delivery_step name kind state station held timeout = record {
    step_id = name;
    kind = kind;
    active_state = state;
    station = some station;
    dwell_seconds = held;
    arguments = [];
    timeout_seconds = timeout;
    on_failure = "abort";
  }

  -- The constructor's arguments, before the checks.
  unfoldable pub delivery_plan : DeliveryJob F → WorkflowPlan F
  unfolding delivery_step
  delivery_plan job =
      let pickup_dwell = job.safety.pickup_dwell_seconds in
      let dropoff_dwell = job.safety.dropoff_dwell_seconds in
      record {
        workflow_id = "hospital_delivery.v1";
        steps =
            delivery_step "navigate.pickup" navigate navigating_to_pickup job.pickup
              (rt.decimal 0 1) job.safety.mission_timeout_seconds
            ∷ delivery_step "dwell.pickup" dwell waiting_for_pickup job.pickup pickup_dwell
                (fmax (rt.decimal 10 1) (rt.add pickup_dwell (rt.decimal 10 1)))
            ∷ delivery_step "navigate.dropoff" navigate navigating_to_dropoff job.dropoff
                (rt.decimal 0 1) job.safety.mission_timeout_seconds
            ∷ delivery_step "dwell.dropoff" dwell waiting_for_dropoff job.dropoff dropoff_dwell
                (fmax (rt.decimal 10 1) (rt.add dropoff_dwell (rt.decimal 10 1)))
            ∷ [];
        goal = "";
        source_kind = "deterministic";
      }

  pub hospital_delivery_workflow : DeliveryJob F → Result (WorkflowPlan F)
  unfolding check_steps check_step check_plan delivery_plan fmax
  hospital_delivery_workflow job =
      let plan = delivery_plan job in do check_steps plan.steps; check_plan plan; ok plan
