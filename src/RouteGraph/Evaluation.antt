-- ===== src/RouteGraph/Evaluation.antt =====
-- flyto_robotics/route_graph.py: the evaluation of the routes.
use flyto_robotics.Prelude.{
  String, Bool, not, ◌&&◌, List, [], ◌∷◌, ◌++◌, length, take, if◌then◌else◌, lookup, format,
  sort_by, text_le, or_else,
}
use flyto_robotics.Prelude.Int.{ℤ, pos, pos_part, leb_ℤ}
use flyto_robotics.Python.{Value, integer, number, Fields, Runtime, Result, ok, route_error}
use flyto_robotics.Python.Mappings.{field}
use flyto_robotics.Python.Checks.{raise_if, ◌>>=◌, ◌>>◌}
use flyto_robotics.SemanticMap.{without_repeats}
use flyto_robotics.DependencyPolicy.{to_mapping}
use flyto_robotics.DependencyPolicy.Assessment.{Observation, assess_device_dependency}
use flyto_robotics.RouteGraph.{
  Evidence, RouteDependency, RouteEvaluation, RouteGraph, RouteItem, RouteOption, Tally,
  action_penalties, boolean, candidates_of, excluded_of, identifier_text, is_blocking, observed,
  refused, route_evaluation_contract,
}

module _ {F : Type 0} ⦃rt : Runtime F⦄ where
  abbrev pub bounded : F → String → F → F → Result F
  bounded x name minimum maximum =
      if rt.is_finite x && (rt.le minimum x && rt.le x maximum)
      then ok x
      else refused (
          name
          ∷ " must be between "
          ∷ rt.repr (number minimum)
          ∷ " and "
          ∷ rt.repr (number maximum)
          ∷ [])

  unfoldable pub number_of : Value F → String → F → F → Result F
  number_of (integer z) name minimum maximum = bounded (rt.of_integer z) name minimum maximum
  number_of (number x) name minimum maximum = bounded x name minimum maximum
  number_of _ name minimum maximum = refused (name ∷ " must be numeric" ∷ [])

  -- `_observation_number`
  unfoldable pub observation_number : Fields F → String → F → F → F → Result F
  observation_number observation name default minimum maximum =
      number_of (or_else (field name observation) (number default)) name minimum maximum

  unfoldable pub observation_of : Fields F → String → Result (Observation F)
  observation_of observation phase = do
    healthy ← boolean observation "healthy"
    confidence ←
        observation_number observation "confidence" (rt.decimal 0 1) (rt.decimal 0 1)
          (rt.decimal 10 1)
    age ←
        observation_number observation "observation_age_seconds" (rt.decimal 864000 1)
          (rt.decimal 0 1) (rt.decimal 864000 1)
    fallback_available ← boolean observation "fallback_available"
    fallback_equivalent ← boolean observation "fallback_equivalent"
    fallback_validated ← boolean observation "fallback_validated"
    evidence_present ← boolean observation "evidence_present"
    ok (record {
      healthy = healthy;
      confidence = number confidence;
      observation_age_seconds = number age;
      fallback_available = fallback_available;
      fallback_equivalent = fallback_equivalent;
      fallback_validated = fallback_validated;
      evidence_present = evidence_present;
      phase = phase;
    })

  unfoldable pub evidence_of : Fields F → String → RouteDependency F → Result (Evidence F)
  evidence_of observations phase dependency = do
    raw ← observed dependency.resource_id (field dependency.resource_id observations)
    observation ← observation_of raw phase
    assessment ← assess_device_dependency dependency.contract observation
    ok (record {
      resource_id = dependency.resource_id;
      assessment = assessment;
      dependency = to_mapping dependency.contract;
    })

  abbrev penalty_of : String → F
  penalty_of action = rt.of_integer (pos (or_else (lookup action action_penalties) 50))

  -- The rest of the loop's turn, on the dependency's evidence.
  unfoldable pub tally_evidence : Evidence F → Tally F → Tally F
  tally_evidence e t =
      if is_blocking e
      then record t {
        evidence = t.evidence ++ e ∷ [];
        exclusion_reasons =
            t.exclusion_reasons ++ format (e.resource_id ∷ ":" ∷ e.assessment.reason ∷ []) ∷ [];
      }
      else record t {
        score = rt.sub t.score (penalty_of e.assessment.action);
        evidence = t.evidence ++ e ∷ [];
        reason_codes =
            t.reason_codes
            ++ format ("dependency." ∷ e.resource_id ∷ "." ∷ e.assessment.action ∷ []) ∷ [];
      }

  unfoldable pub tally_all :
      Fields F → String → List (RouteDependency F) → Tally F → Result (Tally F)
  unfolding tally_evidence
  tally_all observations phase [] t = ok t
  tally_all observations phase (d ∷ dependencies) t = do
    e ← evidence_of observations phase d
    tally_all observations phase dependencies (tally_evidence e t)

  unfoldable pub evaluate_route : Fields F → String → RouteOption F → Result (RouteItem F)
  evaluate_route observations phase route = do
    t ← tally_all observations phase route.dependencies (record {
      score = route.base_score;
      evidence = [];
      exclusion_reasons = [];
      reason_codes = route.reason_codes;
    })
    ok (record {
      route_id = route.route_id;
      location_ids = route.location_ids;
      score = rt.round_to 3 t.score;
      reason_codes = without_repeats [] t.reason_codes;
      attributes = route.attributes;
      dependencies = t.evidence;
      exclusion_reasons = t.exclusion_reasons;
    })

  unfoldable pub evaluate_routes :
      Fields F → String → List (RouteOption F) → Result (List (RouteItem F))
  evaluate_routes observations phase [] = ok []
  evaluate_routes observations phase (route ∷ routes) = do
    item ← evaluate_route observations phase route
    items ← evaluate_routes observations phase routes
    ok (item ∷ items)

  -- The order of the keys `(-score, route_id)`: the first stands before the second or beside it.
  abbrev pub ranks : RouteItem F → RouteItem F → Bool
  ranks a b =
      if rt.eq (rt.neg a.score) (rt.neg b.score)
      then text_le a.route_id b.route_id
      else not (rt.lt (rt.neg b.score) (rt.neg a.score))

  abbrev pub selected : List (RouteItem F) → ℤ → List (RouteItem F)
  selected items limit = take (pos_part limit) (sort_by ranks (candidates_of items))

  abbrev pub result_of :
      RouteGraph F → String → List (RouteItem F) → List (RouteItem F) → Result (RouteEvaluation F)
  result_of graph phase [] excluded =
      refused ("no executable route remains after dependency checks" ∷ [])
  result_of graph phase (item ∷ items) excluded = ok (record {
    contract_version = route_evaluation_contract;
    graph_id = graph.graph_id;
    graph_revision = graph.revision;
    graph_snapshot = graph.snapshot;
    phase = phase;
    candidates = item ∷ items;
    excluded = excluded;
    candidate_count = length (item ∷ items);
    excluded_count = length excluded;
  })

  unfoldable pub evaluate : RouteGraph F → Fields F → String → ℤ → Result (RouteEvaluation F)
  evaluate graph observations phase limit = do
    raise_if (not (leb_ℤ (pos 1) limit && leb_ℤ limit (pos 32)))
        (route_error "limit must be between 1 and 32")
    active_phase ← identifier_text phase "phase"
    items ← evaluate_routes observations active_phase graph.routes
    result_of graph active_phase (selected items limit)
        (sort_by (λ a b. text_le a.route_id b.route_id) (excluded_of items))
