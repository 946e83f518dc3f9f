-- ===== src/DependencyPolicy/Assessment.antt =====
-- dependency_policy.py: `derived_band` and `assess_device_dependency`. The flags are booleans here, so
-- the test of their types has nothing to refuse.
use flyto_robotics.Prelude.{String, Bool, false, not, ◌&&◌, ◌||◌, if◌then◌else◌, contains, str_eq}
use flyto_robotics.Python.{Value, text, Runtime, Result, ok}
use flyto_robotics.Python.Checks.{◌>>=◌}
use flyto_robotics.DependencyPolicy.{
  DependencyContract, DependencyAssessment, bounded_float, scope_identifier,
}

module _ {F : Type 0} where
  unfoldable pub derived_band : DependencyContract F → String
  derived_band c =
      if str_eq c.safety_impact "abort" || str_eq c.task_impact "invalidate"
      then "mission_critical"
      else if str_eq c.safety_impact "stop"
      then "safety_critical"
      else if str_eq c.safety_impact "pause"
          || (str_eq c.task_impact "block" || str_eq c.evidence_requirement "required")
      then "required"
      else if str_eq c.task_impact "degrade" || str_eq c.evidence_requirement "record"
      then "assistive"
      else "optional"

  abbrev pub must_stop : DependencyContract F → Bool
  must_stop c =
      str_eq c.safety_impact "stop"
      || str_eq c.safety_impact "abort"
      || str_eq c.task_impact "invalidate"

  abbrev pub requires_human : DependencyContract F → Bool
  requires_human c =
      not (str_eq c.safety_impact "none")
      || (str_eq c.task_impact "block" || str_eq c.task_impact "invalidate")

  -- `substitute_allowed`
  unfoldable pub may_substitute : DependencyContract F → Bool → Bool → Bool → Bool
  may_substitute c available equivalent validated =
      available
      && (not (str_eq c.substitution_mode "none")
          && (str_eq c.substitution_mode "any_healthy"
              || ((str_eq c.substitution_mode "equivalent" && equivalent)
                  || (str_eq c.substitution_mode "validated" && validated))))

  -- The action on the loss of the dependency, by whether a substitute is allowed.
  unfoldable pub action_for : DependencyContract F → Bool → String
  action_for c substitute =
      if substitute
      then (if must_stop c
          then "safe_stop_then_switch_substitute"
          else if str_eq c.safety_impact "pause"
          then "pause_then_switch_substitute"
          else "switch_substitute")
      else if str_eq c.safety_impact "abort"
      then "safe_stop_and_abort"
      else if str_eq c.safety_impact "stop"
      then "safe_stop_and_escalate"
      else if str_eq c.safety_impact "pause"
      then "pause_and_escalate"
      else if str_eq c.task_impact "invalidate"
      then "abort_and_invalidate"
      else if str_eq c.task_impact "block"
      then "pause_and_escalate"
      else if str_eq c.task_impact "degrade"
      then "continue_degraded"
      else "continue_without_resource"

-- What was observed of a binding.
pub record Observation (F : Type 0) : Type 0 where
  pub healthy : Bool
  pub confidence : Value F
  pub observation_age_seconds : Value F
  pub fallback_available : Bool
  pub fallback_equivalent : Bool
  pub fallback_validated : Bool
  pub evidence_present : Bool
  pub phase : String

module _ {F : Type 0} ⦃rt : Runtime F⦄ where
  unfoldable pub phase_value : Observation F → Value F
  phase_value o = text o.phase

  abbrev pub in_scope : DependencyContract F → String → Bool
  in_scope c phase = contains "*" c.active_phases || contains phase c.active_phases

  abbrev pub evidence_ready : DependencyContract F → Bool → Bool
  evidence_ready c present = not (str_eq c.evidence_requirement "required") || present

  abbrev pub is_ready : DependencyContract F → Observation F → F → F → Bool
  is_ready c o confidence age =
      o.healthy
      && (rt.le c.minimum_confidence confidence
          && (rt.le age c.max_age_seconds && evidence_ready c o.evidence_present))

  unfoldable pub reason_for : DependencyContract F → Observation F → F → String
  reason_for c o confidence =
      if not (evidence_ready c o.evidence_present)
      then "required_evidence_missing"
      else if not o.healthy
      then "unhealthy"
      else if rt.lt confidence c.minimum_confidence
      then "confidence_below_requirement"
      else "observation_stale"

  -- The part of the function behind its checks.
  unfoldable pub assess : DependencyContract F → Observation F → F → F → DependencyAssessment
  unfolding derived_band reason_for may_substitute action_for
  assess c o confidence age =
      if not (in_scope c o.phase)
      then record {
        derived_band = derived_band c;
        state = "not_applicable";
        action = "ignore_outside_scope";
        must_stop = false;
        requires_human = false;
        reason = "phase_outside_scope";
      }
      else if is_ready c o confidence age
      then record {
        derived_band = derived_band c;
        state = "ready";
        action = "use_resource";
        must_stop = false;
        requires_human = false;
        reason = "quality_within_requirement";
      }
      else record {
        derived_band = derived_band c;
        state = "unavailable";
        action =
            action_for c
              (may_substitute c o.fallback_available o.fallback_equivalent o.fallback_validated);
        must_stop = must_stop c;
        requires_human = requires_human c;
        reason = reason_for c o confidence;
      }

  unfoldable pub assess_device_dependency :
      DependencyContract F → Observation F → Result DependencyAssessment
  unfolding assess bounded_float scope_identifier phase_value
  assess_device_dependency c o = do
    active_phase ← scope_identifier (phase_value o) "phase"
    confidence ← bounded_float o.confidence "confidence" (rt.decimal 0 1) (rt.decimal 10 1)
    age ←
        bounded_float o.observation_age_seconds "observation_age_seconds" (rt.decimal 0 1)
          (rt.decimal 864000 1)
    ok (assess c o confidence age)
