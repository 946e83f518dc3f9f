-- ===== src/Handoff/Parsing.antt =====
-- guarded_handoff.py: the documents of a policy and of a script, and the run of a script.
use flyto_robotics.Prelude.{
  ℕ, ◌+◌, ◌&&◌, ◌||◌, String, Bool, true, false, not, Option, none, some, List, [], ◌∷◌,
  if◌then◌else◌, length, leb, ◌==◌, str_eq, codes, format, sort_by, text_le,
}
use flyto_robotics.Python.{
  Value, null, flag, text, array, object, Items, nil, cons, Fields, end, entry, Result, ok, raised,
  handoff_error,
}
use flyto_robotics.Python.Platform.{Platform}
use flyto_robotics.Python.Mappings.{field, keys, is_nothing, without, items_length}
use flyto_robotics.Python.Checks.{raise_if, ◌>>=◌, ◌>>◌}
use flyto_robotics.Handoff.{
  HandoffAction, GuardedHandoffPolicy, GuardedHandoffSession, same_set, is_completed,
}
use flyto_robotics.Handoff.Session.{
  HandoffVerb, checks, scans_item, resumes, scans_recipient, unlocks, completes, verb_of, new,
  apply_all,
}

pub record GuardedHandoffScript : Type 0 where
  pub script_id : String
  pub policy_id : String
  pub actions : List HandoffAction

module _ ⦃platform : Platform⦄ where
  abbrev is_plain : ℕ → Bool
  is_plain c = platform.is_alnum c || (c == b'.' || (c == b'_' || c == b'-'))

  abbrev all_plain : List ℕ → Bool
  all_plain [] = true
  all_plain (c ∷ cs) = is_plain c && all_plain cs

abbrev pub missing : Option String → Bool
missing none = true
missing (some s) = false

abbrev first_missing : List (String × Option String) → Option String
first_missing [] = none
first_missing ((name, value) ∷ required) =
    if missing value then some name else first_missing required

-- The first of the fields that an action requires and lacks.
unfoldable pub lacks : HandoffVerb → HandoffAction → Option String
lacks checks a = first_missing (("name", a.name) ∷ ("value", a.value) ∷ [])
lacks scans_item a = first_missing (("observed_ref", a.observed_ref) ∷ [])
lacks resumes a = first_missing (("actor_id", a.actor_id) ∷ [])
lacks scans_recipient a = first_missing (("observed_ref", a.observed_ref) ∷ [])
lacks unlocks a = first_missing (("actor_id", a.actor_id) ∷ [])
lacks completes a = none

abbrev require : Option String → String → Result (Unit {0})
require none label = ok tt
require (some name) label =
    raised (handoff_error (format (label ∷ "." ∷ name ∷ " is required" ∷ [])))

unfoldable pub supported : String → String → Result HandoffVerb
supported action label = elim (verb_of action) [
  | none ↦ raised (handoff_error (format (label ∷ " has unsupported action " ∷ action ∷ [])))
  | some verb ↦ ok verb
]

module _ {F : Type 0} where
  unfoldable pub as_object : Value F → String → Result (Fields F)
  as_object (object raw) name = ok raw
  as_object _ name = raised (handoff_error (format (name ∷ " must be an object" ∷ [])))

  -- `mapping.get(name)`, where a missing field is `None`
  abbrev pub or_null : Option (Value F) → Value F
  or_null none = null
  or_null (some v) = v

  unfoldable pub exact_keys : Fields F → List String → String → Result (Unit {0})
  exact_keys raw expected name =
      raise_if (not (same_set (keys raw) expected))
        (handoff_error (format (name ∷ " fields must exactly match the contract's" ∷ [])))

  unfoldable pub bounded_text : Value F → String → Result String
  bounded_text (text value) name =
      if leb 1 (length (codes value)) && leb (length (codes value)) 128
      then ok value
      else raised
          (handoff_error (format (name ∷ " must be a string between 1 and 128 characters" ∷ [])))
  bounded_text _ name =
      raised (handoff_error (format (name ∷ " must be a string between 1 and 128 characters" ∷ [])))

module _ {F : Type 0} ⦃platform : Platform⦄ where
  unfoldable pub identifier : Value F → String → Result String
  unfolding bounded_text
  identifier value name = do
    plain ← bounded_text value name
    raise_if (not (all_plain (codes plain))) (
        handoff_error
          (format (name ∷ " may only contain letters, numbers, dot, dash, underscore" ∷ [])))
    ok plain

  -- The name and the value of each precondition, in the order of the mapping.
  unfoldable pub conditions_of : Fields F → Result (List (String × String))
  unfolding identifier bounded_text
  conditions_of end = ok []
  conditions_of (entry key value raw) = do
    name ← (let key_value : Value F = text key in identifier key_value "precondition name")
    expected ← bounded_text value (format ("precondition " ∷ key ∷ []))
    rest ← conditions_of raw
    ok ((name, expected) ∷ rest)

  unfoldable pub flag_of : Value F → Result Bool
  flag_of (flag b) = ok b
  flag_of _ = raised (handoff_error "synthetic must be a boolean")

  abbrev pub is_version : Value F → String → Bool
  is_version (text s) version = str_eq s version
  is_version _ version = false

  unfoldable pub policy_of : Value F → Result GuardedHandoffPolicy
  unfolding as_object exact_keys identifier bounded_text conditions_of flag_of
  policy_of value = do
    mapping ← as_object value "policy"
    exact_keys mapping
        ("contract_version" ∷ "policy_id" ∷ "container_id" ∷ "expected_item_ref"
          ∷ "expected_recipient_ref" ∷ "required_preconditions" ∷ "synthetic" ∷ [])
        "policy"
    raise_if
        (not (
          is_version (or_null (field "contract_version" mapping))
            "flyto.robotics.guarded-handoff-policy.v1"))
        (handoff_error "unsupported policy contract")
    preconditions ←
        as_object (or_null (field "required_preconditions" mapping)) "required_preconditions"
    raise_if (is_nothing (keys preconditions))
        (handoff_error "required_preconditions must not be empty")
    conditions ← conditions_of preconditions
    synthetic ← flag_of (or_null (field "synthetic" mapping))
    policy_id ← identifier (or_null (field "policy_id" mapping)) "policy_id"
    container_id ← identifier (or_null (field "container_id" mapping)) "container_id"
    item ← bounded_text (or_null (field "expected_item_ref" mapping)) "expected_item_ref"
    recipient ←
        bounded_text (or_null (field "expected_recipient_ref" mapping)) "expected_recipient_ref"
    ok (record {
      policy_id = policy_id;
      container_id = container_id;
      expected_item_ref = item;
      expected_recipient_ref = recipient;
      required_preconditions = sort_by (λ a b. text_le a.0 b.0) conditions;
      synthetic = synthetic;
    })

  -- A field of an action that may be missing.
  unfoldable pub optional_text : Option (Value F) → String → Result (Option String)
  unfolding bounded_text
  optional_text none name = ok none
  optional_text (some v) name = bounded_text v name >>= λ s. ok (some s)

  unfoldable pub action_of : Value F → String → Result HandoffAction
  unfolding as_object identifier optional_text supported lacks
  action_of value label = do
    mapping ← as_object value label
    raise_if
        (not (
          is_nothing (
            without ("action" ∷ "name" ∷ "value" ∷ "observed_ref" ∷ "actor_id" ∷ [])
              (keys mapping))))
        (handoff_error (format (label ∷ " contains unknown fields" ∷ [])))
    action ← identifier (or_null (field "action" mapping)) (format (label ∷ ".action" ∷ []))
    verb ← supported action label
    name ← optional_text (field "name" mapping) (format (label ∷ ".name" ∷ []))
    given ← optional_text (field "value" mapping) (format (label ∷ ".value" ∷ []))
    observed ← optional_text (field "observed_ref" mapping) (format (label ∷ ".observed_ref" ∷ []))
    actor ← optional_text (field "actor_id" mapping) (format (label ∷ ".actor_id" ∷ []))
    let parsed : HandoffAction = record {
      action = action;
      name = name;
      value = given;
      observed_ref = observed;
      actor_id = actor;
    }
    require (lacks verb parsed) label
    ok parsed

  unfoldable pub actions_from : ℕ → Items F → Result (List HandoffAction)
  unfolding action_of
  actions_from n nil = ok []
  actions_from n (cons v vs) = do
    action ← action_of v (format ("actions[" ∷ platform.str_of_count n ∷ "]" ∷ []))
    rest ← actions_from (n + 1) vs
    ok (action ∷ rest)

  unfoldable pub action_items : Value F → Result (Items F)
  action_items (array vs) =
      if leb 1 (items_length vs) && leb (items_length vs) 64
      then ok vs
      else raised (handoff_error "actions must contain between 1 and 64 entries")
  action_items _ = raised (handoff_error "actions must contain between 1 and 64 entries")

  unfoldable pub script_of : Value F → Result GuardedHandoffScript
  unfolding as_object exact_keys identifier action_items actions_from
  script_of value = do
    mapping ← as_object value "script"
    exact_keys mapping ("contract_version" ∷ "script_id" ∷ "policy_id" ∷ "actions" ∷ []) "script"
    raise_if
        (not (
          is_version (or_null (field "contract_version" mapping))
            "flyto.robotics.guarded-handoff-script.v1"))
        (handoff_error "unsupported script contract")
    raw ← action_items (or_null (field "actions" mapping))
    script_id ← identifier (or_null (field "script_id" mapping)) "script_id"
    policy_id ← identifier (or_null (field "policy_id" mapping)) "policy_id"
    actions ← actions_from 0 raw
    ok (record { script_id = script_id; policy_id = policy_id; actions = actions })

module _ ⦃platform : Platform⦄ where
  -- The session behind a script that has raised nothing.
  unfoldable pub finished : Result (Unit {0}) × GuardedHandoffSession → Result GuardedHandoffSession
  finished (raised e, s) = raised e
  finished (ok u, s) =
      if not (is_completed s.state)
      then raised (handoff_error "script ended before the guarded handoff completed")
      else ok s

  -- `run_scripted_handoff`; the evidence is that of the session. A script's id has been checked by
  -- its parser, so the session's own check of it passes.
  unfoldable pub run_scripted_handoff :
      GuardedHandoffPolicy → GuardedHandoffScript → Result GuardedHandoffSession
  unfolding finished
  run_scripted_handoff policy script =
      if not (str_eq script.policy_id policy.policy_id)
      then raised (handoff_error "script policy_id does not match the selected policy")
      else finished (apply_all script.actions (new policy script.script_id))
