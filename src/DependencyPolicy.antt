-- ===== src/DependencyPolicy.antt =====
-- flyto_robotics/dependency_policy.py: dependency contracts, their parser, and the action that follows
-- from the loss of a dependency.
pub mod Validity
pub mod Assessment
pub mod Consistency
pub mod RoundTrip
use Prim.Native.String.{compare}
use Prim.Native.Nat.{Ordering}
use flyto_robotics.Prelude.{
  ℕ, String, Bool, true, false, not, ◌&&◌, ◌||◌, Option, none, some, List, [], ◌∷◌, ◌++◌, or_else,
  if◌then◌else◌, length, leb, ◌==◌, ◌+◌, contains, str_eq, codes, format,
}
use flyto_robotics.Prelude.Int.{ℤ, pos, leb_ℤ}
use flyto_robotics.Python.{
  Value, null, integer, number, text, array, object, Items, nil, cons, Fields, end, entry, Runtime,
  Result, ok, raised, dependency_error,
}
use flyto_robotics.Python.Mappings.{
  field, keys, items, items_length, join, unknown_names, is_nothing,
}
use flyto_robotics.Python.Checks.{raise_if, ◌>>=◌, ◌>>◌}
use flyto_robotics.Capabilities.{is_alphanumeric}

abbrev pub safety_impacts : List String
safety_impacts = "none" ∷ "pause" ∷ "stop" ∷ "abort" ∷ []

abbrev pub task_impacts : List String
task_impacts = "none" ∷ "degrade" ∷ "block" ∷ "invalidate" ∷ []

abbrev pub evidence_requirements : List String
evidence_requirements = "none" ∷ "record" ∷ "required" ∷ []

abbrev pub substitution_modes : List String
substitution_modes = "any_healthy" ∷ "equivalent" ∷ "validated" ∷ "none" ∷ []

pub record DependencyContract (F : Type 0) : Type 0 where
  pub safety_impact : String
  pub task_impact : String
  pub evidence_requirement : String
  pub substitution_mode : String
  pub minimum_confidence : F
  pub max_age_seconds : F
  pub recovery_timeout_seconds : F
  pub retry_limit : ℤ
  pub active_phases : List String

pub record DependencyAssessment : Type 0 where
  pub derived_band : String
  pub state : String
  pub action : String
  pub must_stop : Bool
  pub requires_human : Bool
  pub reason : String

scope_code : ℕ → Bool
unfolding is_alphanumeric
scope_code c =
    is_alphanumeric c || c == b'.' || c == b'_' || c == b':' || c == b'@' || c == b'*' || c == b'-'

all_scope_codes : List ℕ → Bool
unfolding scope_code
all_scope_codes [] = true
all_scope_codes (c ∷ cs) = scope_code c && all_scope_codes cs

matches_scope : List ℕ → Bool
unfolding all_scope_codes is_alphanumeric
matches_scope [] = false
matches_scope (c ∷ cs) = is_alphanumeric c && all_scope_codes cs && leb (length cs) 191

-- The texts that `_scope_identifier` accepts.
unfoldable pub is_scope : String → Bool
unfolding matches_scope
is_scope value = str_eq value "*" || matches_scope (codes value)

module _ {F : Type 0} where
  unfoldable pub choice : Value F → String → List String → Result String
  choice (text value) field_name choices =
      if contains value choices
      then ok value
      else raised (dependency_error (format (field_name ∷ " must be one of: " ∷ join choices ∷ [])))
  choice _ field_name choices =
      raised (dependency_error (format (field_name ∷ " must be one of: " ∷ join choices ∷ [])))

  unfoldable pub scope_identifier : Value F → String → Result String
  unfolding is_scope
  scope_identifier (text value) field_name =
      if is_scope value
      then ok value
      else raised (dependency_error (format (field_name ∷ " must be a safe identifier" ∷ [])))
  scope_identifier _ field_name =
      raised (dependency_error (format (field_name ∷ " must be a safe identifier" ∷ [])))

abbrev pub allowed : List String
allowed =
    "safety_impact" ∷ "task_impact" ∷ "evidence_requirement" ∷ "substitution_mode"
    ∷ "minimum_confidence" ∷ "max_age_seconds" ∷ "recovery_timeout_seconds" ∷ "retry_limit"
    ∷ "active_phases" ∷ []

module _ {F : Type 0} ⦃rt : Runtime F⦄ where
  -- `isinstance(value, (int, float))`, no bool, and `float(value)`
  unfoldable pub float_of : Value F → String → Result F
  float_of (integer z) field_name = ok (rt.of_integer z)
  float_of (number x) field_name = ok x
  float_of _ field_name = raised (dependency_error (format (field_name ∷ " must be a number" ∷ [])))

  unfoldable pub bounded_float : Value F → String → F → F → Result F
  unfolding float_of
  bounded_float value field_name minimum maximum = do
    x ← float_of value field_name
    raise_if (not (rt.le minimum x && rt.le x maximum)) (
        dependency_error (
          format (
            field_name
            ∷ " must be between "
            ∷ rt.repr (number minimum)
            ∷ " and "
            ∷ rt.repr (number maximum)
            ∷ [])))
    ok x

  unfoldable pub retry_of : Value F → Result ℤ
  retry_of (integer z) =
      if leb_ℤ (pos 0) z && leb_ℤ z (pos 10)
      then ok z
      else raised (dependency_error "dependency.retry_limit must be an integer between 0 and 10")
  retry_of _ =
      raised (dependency_error "dependency.retry_limit must be an integer between 0 and 10")

  unfoldable pub phase_items : Value F → Result (Items F)
  phase_items (array vs) =
      if leb 1 (items_length vs) && leb (items_length vs) 32
      then ok vs
      else raised
          (dependency_error "dependency.active_phases must contain 1 to 32 phase identifiers")
  phase_items _ =
      raised (dependency_error "dependency.active_phases must contain 1 to 32 phase identifiers")

  unfoldable pub phases_of : Items F → Result (List String)
  unfolding scope_identifier
  phases_of nil = ok []
  phases_of (cons v vs) = do
    phase ← scope_identifier v "dependency.active_phases"
    phases ← phases_of vs
    ok (phase ∷ phases)

  unfoldable pub observer_default : DependencyContract F
  observer_default = record {
    safety_impact = "none";
    task_impact = "degrade";
    evidence_requirement = "record";
    substitution_mode = "any_healthy";
    minimum_confidence = rt.decimal 20 2;
    max_age_seconds = rt.decimal 300 1;
    recovery_timeout_seconds = rt.decimal 0 1;
    retry_limit = pos 0;
    active_phases = "*" ∷ [];
  }

  -- One field of a mapping, or that of the contract that gives the missing ones.
  abbrev pub minimum_confidence_of : Fields F → DependencyContract F → Result F
  minimum_confidence_of raw base =
      bounded_float (or_else (field "minimum_confidence" raw) (number base.minimum_confidence))
        "dependency.minimum_confidence" (rt.decimal 0 1) (rt.decimal 10 1)

  abbrev pub max_age_seconds_of : Fields F → DependencyContract F → Result F
  max_age_seconds_of raw base =
      bounded_float (or_else (field "max_age_seconds" raw) (number base.max_age_seconds))
        "dependency.max_age_seconds" (rt.decimal 5 2) (rt.decimal 36000 1)

  abbrev pub recovery_timeout_seconds_of : Fields F → DependencyContract F → Result F
  recovery_timeout_seconds_of raw base =
      bounded_float
        (or_else (field "recovery_timeout_seconds" raw) (number base.recovery_timeout_seconds))
        "dependency.recovery_timeout_seconds" (rt.decimal 0 1) (rt.decimal 36000 1)

  abbrev pub retry_limit_of : Fields F → DependencyContract F → Result ℤ
  retry_limit_of raw base = retry_of (or_else (field "retry_limit" raw) (integer base.retry_limit))

  abbrev pub raw_phases_of : Fields F → DependencyContract F → Result (Items F)
  raw_phases_of raw base =
      phase_items (or_else (field "active_phases" raw) (array (items base.active_phases)))

  abbrev pub safety_impact_of : Fields F → DependencyContract F → Result String
  safety_impact_of raw base =
      choice (or_else (field "safety_impact" raw) (text base.safety_impact))
        "dependency.safety_impact" safety_impacts

  abbrev pub task_impact_of : Fields F → DependencyContract F → Result String
  task_impact_of raw base =
      choice (or_else (field "task_impact" raw) (text base.task_impact)) "dependency.task_impact"
        task_impacts

  abbrev pub evidence_requirement_of : Fields F → DependencyContract F → Result String
  evidence_requirement_of raw base =
      choice (or_else (field "evidence_requirement" raw) (text base.evidence_requirement))
        "dependency.evidence_requirement" evidence_requirements

  abbrev pub substitution_mode_of : Fields F → DependencyContract F → Result String
  substitution_mode_of raw base =
      choice (or_else (field "substitution_mode" raw) (text base.substitution_mode))
        "dependency.substitution_mode" substitution_modes

  abbrev pub check_names : Fields F → Result (Unit {0})
  check_names raw = raise_if (not (is_nothing (unknown_names allowed (keys raw)))) (
      dependency_error (
        format (
          "dependency contract contains unsupported fields: "
          ∷ join (unknown_names allowed (keys raw))
          ∷ [])))

  -- `from_mapping` on a mapping.
  unfoldable pub parse_fields : Fields F → DependencyContract F → Result (DependencyContract F)
  unfolding bounded_float retry_of phase_items phases_of choice
  parse_fields raw base = do
    check_names raw
    minimum_confidence ← minimum_confidence_of raw base
    max_age_seconds ← max_age_seconds_of raw base
    recovery_timeout_seconds ← recovery_timeout_seconds_of raw base
    retry_limit ← retry_limit_of raw base
    raw_phases ← raw_phases_of raw base
    safety_impact ← safety_impact_of raw base
    task_impact ← task_impact_of raw base
    evidence_requirement ← evidence_requirement_of raw base
    substitution_mode ← substitution_mode_of raw base
    active_phases ← phases_of raw_phases
    ok (record {
      safety_impact = safety_impact;
      task_impact = task_impact;
      evidence_requirement = evidence_requirement;
      substitution_mode = substitution_mode;
      minimum_confidence = minimum_confidence;
      max_age_seconds = max_age_seconds;
      recovery_timeout_seconds = recovery_timeout_seconds;
      retry_limit = retry_limit;
      active_phases = active_phases;
    })

  unfoldable pub from_mapping :
      Value F → Option (DependencyContract F) → Result (DependencyContract F)
  unfolding parse_fields observer_default
  from_mapping null default = ok (or_else default observer_default)
  from_mapping (object raw) default = parse_fields raw (or_else default observer_default)
  from_mapping _ default = raised (dependency_error "dependency contract must be an object")

  unfoldable pub to_mapping : DependencyContract F → Value F
  to_mapping c = object (
      entry "safety_impact" (text c.safety_impact) (
        entry "task_impact" (text c.task_impact) (
          entry "evidence_requirement" (text c.evidence_requirement) (
            entry "substitution_mode" (text c.substitution_mode) (
              entry "minimum_confidence" (number c.minimum_confidence) (
                entry "max_age_seconds" (number c.max_age_seconds) (
                  entry "recovery_timeout_seconds" (number c.recovery_timeout_seconds) (
                    entry "retry_limit" (integer c.retry_limit)
                      (entry "active_phases" (array (items c.active_phases)) end)))))))))
