-- ===== src/RouteGraph/Usable.antt =====
-- route_graph.py: what the loop over a route's dependencies gathers.
use flyto_robotics.Prelude.{
  ◌≡◌, refl, suc, inl, inr, ◌||◌, String, Bool, true, false, not, List, [], ◌∷◌, ◌++◌, length, All,
  Any, All-append, contains, str_eq, if_split, if_ind, arith,
}
use flyto_robotics.Python.{Fields, Runtime}
use flyto_robotics.Python.Checks.{OkAnd, OkAnd-bind, OkAnd-then}
use flyto_robotics.DependencyPolicy.{
  DependencyContract, DependencyAssessment, bounded_float, scope_identifier,
}
use flyto_robotics.DependencyPolicy.Assessment.{
  Observation, assess, assess_device_dependency, action_for, must_stop, may_substitute, in_scope,
  is_ready, phase_value,
}
use flyto_robotics.RouteGraph.{
  blocking_actions, RouteDependency, RouteOption, Evidence, Tally, RouteItem, observed, is_blocking,
}
use flyto_robotics.RouteGraph.Evaluation.{
  observation_of, evidence_of, tally_evidence, tally_all, evaluate_route, evaluate_routes,
}

-- A loss that has to stop the robot blocks, or first stops it safely for a substitute.
abbrev pub Halts : DependencyAssessment → Type 0
Halts a =
    (contains a.action blocking_actions
      || (not a.must_stop || str_eq a.action "safe_stop_then_switch_substitute"))
    ≡ true

or_first : (b c : Bool) → (b || c) ≡ true → b ≡ false → c ≡ true
or_first true c h e = cc
or_first false c h e = h

abbrev Stops : Bool → String → Type 0
Stops stop action =
    (contains action blocking_actions
      || (not stop || str_eq action "safe_stop_then_switch_substitute"))
    ≡ true

module _ {F : Type 0} where
  Stops-action_for : (c : DependencyContract F) (b : Bool) → Stops (must_stop c) (action_for c b)
  unfolding action_for
  Stops-action_for c true =
      if_split (Stops (must_stop c)) (must_stop c) (λ h. rw h refl)
        λ h. rw h (if_ind (Stops false) (str_eq c.safety_impact "pause") refl refl)
  Stops-action_for c false =
      if_split (Stops (must_stop c)) (str_eq c.safety_impact "abort") (λ h. refl)
        λ h1.
          if_split (Stops (must_stop c)) (str_eq c.safety_impact "stop") (λ h. refl)
            λ h2.
              if_split (Stops (must_stop c)) (str_eq c.safety_impact "pause") (λ h. refl)
                λ h3.
                  if_split (Stops (must_stop c)) (str_eq c.task_impact "invalidate") (λ h. refl)
                    λ h4.
                      if_split (Stops (must_stop c)) (str_eq c.task_impact "block") (λ h. refl)
                        λ h5.
                          let calm : must_stop c ≡ false = ground arith in
                          rw calm (if_ind (Stops false) (str_eq c.task_impact "degrade") refl refl)

module _ {F : Type 0} ⦃rt : Runtime F⦄ where
  Halts-assess :
      (c : DependencyContract F) (o : Observation F) (confidence age : F)
      → Halts (assess c o confidence age)
  unfolding assess
  Halts-assess c o confidence age = if_ind Halts (not (in_scope c o.phase)) refl (
      if_ind Halts (is_ready c o confidence age) refl (
        Stops-action_for c
          (may_substitute c o.fallback_available o.fallback_equivalent o.fallback_validated)))

  Halts-assess_device_dependency :
      (c : DependencyContract F) (o : Observation F) → OkAnd Halts (assess_device_dependency c o)
  unfolding assess_device_dependency
  Halts-assess_device_dependency c o =
      OkAnd-then Halts (scope_identifier (phase_value o) "phase") _ λ phase _.
        OkAnd-then Halts
          (bounded_float o.confidence "confidence" (rt.decimal 0 1) (rt.decimal 10 1)) _
          λ confidence _.
            OkAnd-then Halts
              (bounded_float o.observation_age_seconds "observation_age_seconds" (rt.decimal 0 1)
                (rt.decimal 864000 1))
              _ λ age _. Halts-assess c o confidence age

  abbrev pub HaltsEvidence : Evidence F → Type 0
  HaltsEvidence e = Halts e.assessment

  HaltsEvidence-evidence_of :
      (observations : Fields F) (phase : String) (d : RouteDependency F)
      → OkAnd HaltsEvidence (evidence_of observations phase d)
  unfolding evidence_of
  HaltsEvidence-evidence_of observations phase d =
      OkAnd-then HaltsEvidence (observed d.resource_id _) _ λ raw _.
        OkAnd-then HaltsEvidence (observation_of raw phase) _ λ o _.
          OkAnd-bind HaltsEvidence Halts (assess_device_dependency d.contract o) _
            (Halts-assess_device_dependency d.contract o) λ a h. h

  -- The dependency does not block; if it has to stop the robot, a substitute takes over once the
  -- robot has stopped safely.
  abbrev pub IsUsable : Evidence F → Type 0
  IsUsable e =
      (is_blocking e ≡ false)
      × ((not e.assessment.must_stop
            || str_eq e.assessment.action "safe_stop_then_switch_substitute")
          ≡ true)

  -- While nothing excludes the route, all that was found of its dependencies is usable; what excludes
  -- it is a dependency that blocks.
  abbrev pub Tallied : List (Evidence F) → List String → Type 0
  Tallied evidence [] = All IsUsable evidence
  Tallied evidence (reason ∷ reasons) = Any (λ e. is_blocking e ≡ true) evidence

  Any-last :
      (P : Evidence F → Type 0) (es : List (Evidence F)) (e : Evidence F)
      → P e
      → Any P (es ++ e ∷ [])
  Any-last P [] e h = inl h
  Any-last P (x ∷ es) e h = inr (Any-last P es e h)

  Any-append : (P : Evidence F → Type 0) (es fs : List (Evidence F)) → Any P es → Any P (es ++ fs)
  Any-append P [] fs h = absurd h
  Any-append P (x ∷ es) fs (inl h) = inl h
  Any-append P (x ∷ es) fs (inr h) = inr (Any-append P es fs h)

  Tallied-reason :
      (evidence : List (Evidence F)) (reasons : List String) (r : String) (e : Evidence F)
      → is_blocking e ≡ true
      → Tallied (evidence ++ e ∷ []) (reasons ++ r ∷ [])
  Tallied-reason evidence [] r e h = Any-last (λ e. is_blocking e ≡ true) evidence e h
  Tallied-reason evidence (q ∷ reasons) r e h = Any-last (λ e. is_blocking e ≡ true) evidence e h

  Tallied-usable :
      (evidence : List (Evidence F)) (reasons : List String) (e : Evidence F)
      → Tallied evidence reasons
      → IsUsable e
      → Tallied (evidence ++ e ∷ []) reasons
  Tallied-usable evidence [] e h k = All-append IsUsable evidence (e ∷ []) h (k, tt)
  Tallied-usable evidence (q ∷ reasons) e h k =
      Any-append (λ e. is_blocking e ≡ true) evidence (e ∷ []) h

  abbrev IsTallied : Tally F → Type 0
  IsTallied t = Tallied t.evidence t.exclusion_reasons

  IsTallied-tally_evidence :
      (e : Evidence F) (t : Tally F)
      → HaltsEvidence e
      → IsTallied t
      → IsTallied (tally_evidence e t)
  unfolding tally_evidence
  IsTallied-tally_evidence e t halts h =
      if_split IsTallied (is_blocking e) (λ b. Tallied-reason t.evidence t.exclusion_reasons _ e b)
        λ b.
          Tallied-usable t.evidence t.exclusion_reasons e h (b, or_first (is_blocking e) _ halts b)

  IsTallied-tally_all :
      (observations : Fields F) (phase : String) (ds : List (RouteDependency F)) (t : Tally F)
      → IsTallied t
      → OkAnd IsTallied (tally_all observations phase ds t)
  unfolding tally_all
  IsTallied-tally_all observations phase [] t h = h
  IsTallied-tally_all observations phase (d ∷ ds) t h =
      OkAnd-bind IsTallied HaltsEvidence (evidence_of observations phase d) _
        (HaltsEvidence-evidence_of observations phase d)
        λ e halts.
          IsTallied-tally_all observations phase ds (tally_evidence e t)
            (IsTallied-tally_evidence e t halts h)

  -- A route that nothing excludes has only usable dependencies, and another one a blocking one.
  abbrev pub IsFiltered : RouteItem F → Type 0
  IsFiltered item = Tallied item.dependencies item.exclusion_reasons

  IsFiltered-evaluate_route :
      (observations : Fields F) (phase : String) (route : RouteOption F)
      → OkAnd IsFiltered (evaluate_route observations phase route)
  unfolding evaluate_route
  IsFiltered-evaluate_route observations phase route =
      OkAnd-bind IsFiltered IsTallied (tally_all observations phase route.dependencies _) _
        (IsTallied-tally_all observations phase route.dependencies
          (record {
            score = route.base_score;
            evidence = [];
            exclusion_reasons = [];
            reason_codes = route.reason_codes;
          })
          tt)
        λ t h. h

  pub IsFiltered-evaluate_routes :
      (observations : Fields F) (phase : String) (routes : List (RouteOption F))
      → OkAnd
          (λ items. All IsFiltered items × (length items ≡ length routes))
          (evaluate_routes observations phase routes)
  unfolding evaluate_routes evaluate_route
  IsFiltered-evaluate_routes observations phase [] = (tt, refl)
  IsFiltered-evaluate_routes observations phase (route ∷ routes) =
      OkAnd-bind (λ items. All IsFiltered items × (length items ≡ suc (length routes))) IsFiltered
        (evaluate_route observations phase route) _
        (IsFiltered-evaluate_route observations phase route)
        λ item one.
          OkAnd-bind (λ items. All IsFiltered items × (length items ≡ suc (length routes)))
            (λ items. All IsFiltered items × (length items ≡ length routes))
            (evaluate_routes observations phase routes) _
            (IsFiltered-evaluate_routes observations phase routes)
            λ items (all, count). ((one, all), omega (arith, count))
