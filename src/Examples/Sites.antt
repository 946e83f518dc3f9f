-- ===== src/Examples/Sites.antt =====
-- The site's safety profile and the route graph on concrete inputs, as tests and as witnesses.
use flyto_robotics.Prelude.{
  ◌≡◌, refl, String, true, false, none, some, List, [], ◌∷◌, ◌&&◌, arith, map, str_eq, lookup,
  sort_by,
}
use flyto_robotics.Prelude.Int.{ℤ, pos, ltb_ℤ, leb_ℤ}
use flyto_robotics.Python.{
  Value, text, integer, number, array, object, Items, nil, cons, Fields, end, entry, Result, ok,
  raised,
}
use flyto_robotics.Python.Checks.{OkAnd}
use flyto_robotics.Contracts.{SafetyLimits}
use flyto_robotics.SafetyProfile.{
  is_more_conservative, parse_profile, limits_of, numbers_of, apply_profile, apply_limit,
}
use flyto_robotics.SafetyProfile.Site.{holds, load_profile, constrained_by, constrained_by_site}
use flyto_robotics.SafetyProfile.Jobs.{
  KeepsSite, KeepsSite-constrained_by_site, constrained_by-lateral,
}
use flyto_robotics.SafetyProfile.Audit.{
  ChangeRecord, change_record, relaxed_of, relaxes, Site, planned_change, update_profile,
}
use flyto_robotics.SafetyProfile.Changes.{
  IsTighter, IsTighter-change_record, Recorded, Recorded-update_profile,
}
use flyto_robotics.RouteGraph.{
  RouteGraph, RouteOption, RouteEvaluation, identifier_text, observed, boolean,
}
use flyto_robotics.RouteGraph.Evaluation.{
  evaluate, evaluate_routes, evaluate_route, tally_all, evidence_of, observation_of,
  observation_number, number_of,
}
use flyto_robotics.DependencyPolicy.Assessment.{assess_device_dependency}
use flyto_robotics.DependencyPolicy.{DependencyContract}
use flyto_robotics.RouteGraph.Parsing.{graph_of}
use flyto_robotics.RouteGraph.Ranking.{IsRanked, IsRanked-evaluate}
use flyto_robotics.RouteGraph.Shape.{IsGraph}
use flyto_robotics.RouteGraph.Validity.{IsGraph-graph_of}
use flyto_robotics.Examples.Milli.{milli}
use flyto_robotics.Examples.Services.{platform, json, codec}

-- The order of the thousandths.
irreflexive : (x : ℤ) → ltb_ℤ x x ≡ false
irreflexive x = ground arith

exclusive :
    (x y : ℤ)
    → ltb_ℤ x y ≡ true
    → ((leb_ℤ x y && leb_ℤ y x) ≡ false) × ((leb_ℤ y x && leb_ℤ x y) ≡ false)
exclusive x y h = (ground arith, ground arith)

symmetric : (x y : ℤ) → (leb_ℤ x y && leb_ℤ y x) ≡ (leb_ℤ y x && leb_ℤ x y)
symmetric x y = ground arith

asymmetric : (x y : ℤ) → ltb_ℤ x y ≡ true → ltb_ℤ y x ≡ false
asymmetric x y h = ground arith

apart : (x y : ℤ) → (leb_ℤ x y && leb_ℤ y x) ≡ true → ltb_ℤ x y ≡ false
apart x y h = ground arith

lt-neg : (x y : ℤ) → ltb_ℤ (milli.neg x) (milli.neg y) ≡ ltb_ℤ y x
lt-neg x y = ground arith

eq-neg : (x y : ℤ) → milli.eq (milli.neg x) (milli.neg y) ≡ milli.eq x y
eq-neg x y = ground arith

abbrev requested : SafetyLimits ℤ
requested = record {
  max_linear_speed = pos 400;
  max_angular_speed = pos 800;
  obstacle_stop_distance = pos 350;
  lateral_stop_distance = some (pos 300);
  emergency_stop_distance = pos 200;
  pose_tolerance = pos 50;
  mission_timeout_seconds = pos 60000;
  pickup_dwell_seconds = pos 1000;
  dropoff_dwell_seconds = pos 1000;
}

site_test :
    constrained_by_site "profile.json" (holds "{}") requested
    ≡ ok (record requested { max_linear_speed = pos 250; lateral_stop_distance = some (pos 600) })
unfolding constrained_by_site load_profile parse_profile limits_of numbers_of constrained_by
    apply_profile apply_limit
site_test = refl

KeepsSite-constrained_by_site_example :
    KeepsSite
      (load_profile "profile.json" (holds "{}"))
      (constrained_by_site "profile.json" (holds "{}") requested)
KeepsSite-constrained_by_site_example =
    KeepsSite-constrained_by_site irreflexive exclusive "profile.json" (holds "{}") requested

constrained_by-lateral_example :
    (constrained_by
      (("max_linear_speed", pos 250) ∷ ("lateral_stop_distance", pos 600) ∷ [])
      (record requested { lateral_stop_distance = none })).lateral_stop_distance
    ≡ none
constrained_by-lateral_example =
    constrained_by-lateral (("max_linear_speed", pos 250) ∷ ("lateral_stop_distance", pos 600) ∷ [])
      requested

abbrev slower : ChangeRecord ℤ
slower = record {
  changed_by = "alice";
  at = "noon";
  reason = "works";
  before = ("max_linear_speed", pos 250) ∷ [];
  after = ("max_linear_speed", pos 200) ∷ ("max_angular_speed", pos 500) ∷ [];
  relaxed_limits = [];
  relaxes_safety = false;
}

slower_test : change_record "alice" "noon" slower.before slower.after "works" ≡ ok slower
unfolding change_record relaxed_of sort_by relaxes is_more_conservative
slower_test = refl

IsTighter-change_record_example :
    IsTighter "max_linear_speed" (pos 250) (lookup "max_linear_speed" slower.after)
IsTighter-change_record_example =
    IsTighter-change_record "alice" "noon" slower.before slower.after "works" slower slower_test
      refl "max_linear_speed" (pos 250) refl

abbrev site : Site
site = record {
  profile = holds "{}";
  audit = "";
  folder_fault = none;
  audit_fault = none;
  profile_fault = none;
}

abbrev new_limits : Fields ℤ
new_limits = entry "max_linear_speed" (number (pos 200)) end

Recorded-update_profile_example :
    Recorded site
      (planned_change
        (λ s. str_eq s "")
        "profile.json"
        site.profile
        new_limits
        "alice"
        "works"
        "noon")
      (update_profile
        (λ s. str_eq s "")
        "profile.json"
        "audit.jsonl"
        new_limits
        "alice"
        "works"
        "noon"
        site)
Recorded-update_profile_example =
    Recorded-update_profile (λ s. str_eq s "") "profile.json" "audit.jsonl" new_limits "alice"
      "works" "noon" site

abbrev names_of : String → String → Items ℤ
names_of a b = cons (text a) (cons (text b) nil)

-- A route that needs the lift, which stops the robot when it is lost.
abbrev lift : Value ℤ
lift = object (
    entry "resource_id" (text "lift")
      (entry "contract" (object (entry "safety_impact" (text "stop") end)) end))

abbrev route_value : String → Items ℤ → Value ℤ
route_value id dependencies = object (
    entry "route_id" (text id) (
      entry "location_ids" (array (names_of "dock" "ward"))
        (entry "base_score" (integer (pos 10)) (entry "dependencies" (array dependencies) end))))

abbrev graph_value : Value ℤ
graph_value = object (
    entry "contract_version" (text "flyto.robotics.route-graph.v1") (
      entry "graph_id" (text "g1") (
        entry "revision" (integer (pos 1)) (
          entry "routes"
            (array
              (cons (route_value "stairs" nil) (cons (route_value "lift" (cons lift nil)) nil)))
            end))))

IsGraph-graph_of_example : OkAnd IsGraph (graph_of graph_value)
IsGraph-graph_of_example = IsGraph-graph_of graph_value

abbrev route : String → RouteOption ℤ
route id = record {
  route_id = id;
  location_ids = "dock" ∷ "ward" ∷ [];
  base_score = pos 10000;
  reason_codes = [];
  attributes = end;
  dependencies = [];
}

abbrev lift_contract : DependencyContract ℤ
lift_contract = record {
  safety_impact = "stop";
  task_impact = "block";
  evidence_requirement = "record";
  substitution_mode = "none";
  minimum_confidence = pos 200;
  max_age_seconds = pos 30000;
  recovery_timeout_seconds = pos 0;
  retry_limit = pos 0;
  active_phases = "*" ∷ [];
}

-- Two routes that need nothing, and one that needs the lift, of which nothing is observed.
abbrev graph : RouteGraph ℤ
graph = record {
  graph_id = "g1";
  revision = pos 1;
  routes =
      route "b"
      ∷ record (route "c") {
        dependencies = record { resource_id = "lift"; contract = lift_contract } ∷ [];
      }
      ∷ route "a"
      ∷ [];
  snapshot = "";
}

abbrev outcome : Result (RouteEvaluation ℤ) → List String × List String
outcome (ok ev) = (map (λ i. i.route_id) ev.candidates, map (λ i. i.route_id) ev.excluded)
outcome (raised e) = ([], [])

routes_test : outcome (evaluate graph end "preflight" (pos 8)) ≡ ("a" ∷ "b" ∷ [], "c" ∷ [])
unfolding evaluate identifier_text evaluate_routes evaluate_route tally_all evidence_of observed
    observation_of boolean observation_number number_of assess_device_dependency sort_by
routes_test = refl

IsRanked-evaluate_example : OkAnd IsRanked (evaluate graph end "preflight" (pos 8))
IsRanked-evaluate_example =
    IsRanked-evaluate symmetric asymmetric apart eq-neg lt-neg graph end "preflight" (pos 8)
