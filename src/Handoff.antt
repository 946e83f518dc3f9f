-- ===== src/Handoff.antt =====
-- flyto_robotics/guarded_handoff.py: the session that hands a payload over, gate by gate.
pub mod Session
pub mod Parsing
pub mod Gates
pub mod Handlers
pub mod Unlocking
pub mod Moves
pub mod History
pub mod Scripts
use flyto_robotics.Prelude.{
  ℕ, ◌+◌, ◌&&◌, ◌||◌, String, Bool, true, false, not, Option, none, some, List, [], ◌∷◌, ◌++◌, map,
  if◌then◌else◌, length, ◌==◌, contains, str_eq, lookup_last, format, or_else,
}
use flyto_robotics.Python.{Result, ok, raised, handoff_error, key_error, runtime_error}
use flyto_robotics.Python.Platform.{Platform}

pub data HandoffState : Type 0 where
  awaiting_preconditions awaiting_item blocked_item checkpoint_ready : HandoffState
  awaiting_recipient ready_to_unlock unlocked completed : HandoffState

pub record GuardedHandoffPolicy : Type 0 where
  pub policy_id : String
  pub container_id : String
  pub expected_item_ref : String
  pub expected_recipient_ref : String
  pub required_preconditions : List (String × String)
  pub synthetic : Bool

pub record HandoffAction : Type 0 where
  pub action : String
  pub name : Option String
  pub value : Option String
  pub observed_ref : Option String
  pub actor_id : Option String

-- One entry of the log, with the fields that its kind adds.
pub record HandoffEvent : Type 0 where
  pub sequence : ℕ
  pub kind : String
  pub detail : String
  pub state : HandoffState
  pub container_locked : Bool
  pub fields : List (String × String)

-- `verified_preconditions` is a set, held without repetitions in the order of the checks.
pub record GuardedHandoffSession : Type 0 where
  pub policy : GuardedHandoffPolicy
  pub session_id : String
  pub state : HandoffState
  pub container_locked : Bool
  pub checkpoint : Option String
  pub verified_preconditions : List String
  pub item_verified : Bool
  pub recipient_verified : Bool
  pub events : List HandoffEvent

abbrev pub is_completed : HandoffState → Bool
is_completed completed = true
is_completed _ = false

abbrev pub may_check : HandoffState → Bool
may_check awaiting_preconditions = true
may_check _ = false

abbrev pub may_scan_item : HandoffState → Bool
may_scan_item awaiting_item = true
may_scan_item blocked_item = true
may_scan_item _ = false

abbrev pub may_resume : HandoffState → Bool
may_resume checkpoint_ready = true
may_resume _ = false

abbrev pub may_scan_recipient : HandoffState → Bool
may_scan_recipient awaiting_recipient = true
may_scan_recipient ready_to_unlock = true
may_scan_recipient _ = false

abbrev pub may_unlock : HandoffState → Bool
may_unlock ready_to_unlock = true
may_unlock _ = false

abbrev pub is_unlocked : HandoffState → Bool
is_unlocked unlocked = true
is_unlocked _ = false

-- `str(value)` of an optional text
abbrev pub str_of : Option String → String
str_of none = "None"
str_of (some s) = s

-- `value == expected`
abbrev pub is_text : Option String → String → Bool
is_text none expected = false
is_text (some s) expected = str_eq s expected

abbrev pub names : List (String × String) → List String
names conditions = map (λ c. c.0) conditions

abbrev pub all_in : List String → List String → Bool
all_in [] ys = true
all_in (x ∷ xs) ys = contains x ys && all_in xs ys

-- Equality of sets.
abbrev pub same_set : List String → List String → Bool
same_set xs ys = all_in xs ys && all_in ys xs

-- `verified.add(name)`
unfoldable pub add_name : String → List String → List String
add_name name verified = if contains name verified then verified else verified ++ name ∷ []

unfoldable pub record_event :
    String → String → List (String × String) → GuardedHandoffSession → GuardedHandoffSession
record_event kind detail fields s = record s {
  events =
      s.events
      ++ record {
        sequence = length s.events + 1;
        kind = kind;
        detail = detail;
        state = s.state;
        container_locked = s.container_locked;
        fields = fields;
      }
        ∷ [];
}

abbrev pub Handler : Type 0
Handler = GuardedHandoffSession → Result (Unit {0}) × GuardedHandoffSession

abbrev pub all_verified : GuardedHandoffSession → Bool
all_verified s = same_set s.verified_preconditions (names s.policy.required_preconditions)

-- The state behind a verified precondition.
unfoldable pub advance_checks : GuardedHandoffSession → GuardedHandoffSession
advance_checks s = if all_verified s then record s { state = awaiting_item } else s

unfoldable pub verify_precondition : String → Option String → String → Handler
unfolding record_event advance_checks add_name
verify_precondition name value expected s =
    if not (is_text value expected)
    then (
      ok tt,
      record_event "precondition_rejected"
          (format (name ∷ " did not satisfy the declared requirement" ∷ []))
          (("condition", name) ∷ ("expected", expected) ∷ ("actual", str_of value) ∷ []) s,
    )
    else (
      ok tt,
      record_event "precondition_verified" (format (name ∷ " satisfied" ∷ []))
          (("condition", name) ∷ ("actual", str_of value) ∷ [])
          (advance_checks
            (record s { verified_preconditions = add_name name s.verified_preconditions })),
    )

-- The value that the policy requires, if it declares the precondition.
unfoldable pub verify_declared : String → Option String → Option String → Handler
unfolding verify_precondition
verify_declared name value none s = (raised (handoff_error "undeclared precondition rejected"), s)
verify_declared name value (some expected) s = verify_precondition name value expected s

unfoldable pub check_precondition : HandoffAction → Handler
unfolding verify_declared
check_precondition action s =
    if not (may_check s.state)
    then (raised (handoff_error "preconditions can only be checked before item verification"), s)
    else verify_declared (str_of action.name) action.value
        (lookup_last (str_of action.name) s.policy.required_preconditions) s

module _ ⦃platform : Platform⦄ where
  unfoldable pub evidence_ref : GuardedHandoffPolicy → String → String
  evidence_ref policy value =
      if policy.synthetic then value else format ("sha256:" ∷ platform.sha256 value ∷ [])

  unfoldable pub scan_item : HandoffAction → Handler
  unfolding evidence_ref record_event
  scan_item action s =
      let observed = str_of action.observed_ref in
      if not (may_scan_item s.state)
      then (raised (handoff_error "item scan is not allowed in the current state"), s)
      else if not (str_eq observed s.policy.expected_item_ref)
      then (
        ok tt,
        record_event "item_rejected" "payload identifier mismatch; container remains locked"
            (("expected", evidence_ref s.policy s.policy.expected_item_ref)
              ∷ ("actual", evidence_ref s.policy observed)
              ∷ [])
            (record s {
              state = blocked_item;
              item_verified = false;
              checkpoint = some "verify_item";
            }),
      )
      else (
        ok tt,
        record_event "item_verified" "payload identifier matched the policy"
            (("actual", evidence_ref s.policy observed) ∷ [])
            (record s {
              item_verified = true;
              state =
                  if is_text s.checkpoint "verify_item"
                  then checkpoint_ready
                  else awaiting_recipient;
            }),
      )

  unfoldable pub scan_recipient : HandoffAction → Handler
  unfolding evidence_ref record_event
  scan_recipient action s =
      let observed = str_of action.observed_ref in
      if not (may_scan_recipient s.state)
      then (raised (handoff_error "recipient scan is not allowed before item verification"), s)
      else if not (str_eq observed s.policy.expected_recipient_ref)
      then (
        ok tt,
        record_event "recipient_rejected" "recipient identifier mismatch; container remains locked"
            (("expected", evidence_ref s.policy s.policy.expected_recipient_ref)
              ∷ ("actual", evidence_ref s.policy observed)
              ∷ [])
            (record s { recipient_verified = false; state = awaiting_recipient }),
      )
      else (
        ok tt,
        record_event "recipient_verified" "recipient identifier matched the task"
            (("actual", evidence_ref s.policy observed) ∷ [])
            (record s { recipient_verified = true; state = ready_to_unlock }),
      )

unfoldable pub resume_checkpoint : HandoffAction → Handler
unfolding record_event
resume_checkpoint action s =
    if not (may_resume s.state) || (not s.item_verified || not (is_text s.checkpoint "verify_item"))
    then (raised (handoff_error "checkpoint resume requires a newly verified item"), s)
    else (
      ok tt,
      record_event "checkpoint_resumed" "operator resumed from the verified item checkpoint"
          (("checkpoint", str_of s.checkpoint) ∷ ("actor_id", str_of action.actor_id) ∷ [])
          (record s { state = awaiting_recipient; checkpoint = none }),
    )

unfoldable pub unlock_container : HandoffAction → Handler
unfolding record_event
unlock_container action s =
    if not (may_unlock s.state)
      || (not (all_verified s) || (not s.item_verified || not s.recipient_verified))
    then (raised (handoff_error "container unlock requires all declared gates"), s)
    else (
      ok tt,
      record_event "container_unlocked" "all declared gates passed; unlock authorized"
          (("actor_id", str_of action.actor_id) ∷ [])
          (record s { container_locked = false; state = unlocked }),
    )

unfoldable pub complete : HandoffAction → Handler
unfolding record_event
complete action s =
    if not (is_unlocked s.state) || s.container_locked
    then (raised (handoff_error "handoff cannot complete while the container is locked"), s)
    else (
      ok tt,
      record_event "handoff_completed" "guarded handoff completed" []
          (record s { state = completed }),
    )
