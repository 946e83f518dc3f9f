-- ===== src/RouteGraph/Gathered.antt =====
-- route_graph.py: each item of an evaluation is that of a route of the graph, with the evidence of
-- every dependency of this route.
use flyto_robotics.Prelude.{
  ◌≡◌, refl, sym, ap, ◌∙◌, inl, inr, String, List, [], ◌∷◌, ◌++◌, All, Any, if_ind,
}
use mathlib.Core.List.{append-nil, append_assoc}
use mathlib.Core.Path.{subst}
use flyto_robotics.Python.{Fields, Runtime, Result, ok, raised}
use flyto_robotics.Python.Mappings.{field}
use flyto_robotics.Python.Checks.{OkAnd, OkAnd-bind, OkAnd-then}
use flyto_robotics.DependencyPolicy.{to_mapping}
use flyto_robotics.DependencyPolicy.Assessment.{Observation, assess_device_dependency}
use flyto_robotics.RouteGraph.{
  RouteDependency, RouteOption, Evidence, Tally, RouteItem, observed, is_blocking,
}
use flyto_robotics.RouteGraph.Evaluation.{
  observation_of, evidence_of, tally_evidence, tally_all, evaluate_route, evaluate_routes,
}

module _ {F : Type 0} ⦃rt : Runtime F⦄ (observations : Fields F) (phase : String) where
  -- The evidence of a dependency: what the policy says of its contract, on what was observed of its
  -- resource.
  abbrev pub IsEvidenceOf : RouteDependency F → Evidence F → Type 0
  IsEvidenceOf d e =
      (e.resource_id ≡ d.resource_id)
      × (e.dependency ≡ to_mapping d.contract)
      × ((raw : Fields F) × (o : Observation F) × (observed d.resource_id
              (field d.resource_id observations)
            ≡ ok raw)
          × (observation_of raw phase ≡ ok o)
          × (assess_device_dependency d.contract o ≡ ok e.assessment))

  -- One piece of evidence for each dependency, in their order.
  abbrev pub Covers : List (RouteDependency F) → List (Evidence F) → Type 0
  Covers [] [] = Unit
  Covers (d ∷ ds) (e ∷ es) = IsEvidenceOf d e × Covers ds es
  Covers _ _ = ⊥

  -- What a route of the graph is evaluated to.
  abbrev pub IsItemOf : RouteItem F → RouteOption F → Type 0
  IsItemOf item route =
      (item.route_id ≡ route.route_id)
      × (item.location_ids ≡ route.location_ids)
      × Covers route.dependencies item.dependencies

  abbrev pub IsFrom : List (RouteOption F) → RouteItem F → Type 0
  IsFrom routes item = Any (IsItemOf item) routes

  IsEvidenceOf-evidence_of :
      (d : RouteDependency F) → OkAnd (IsEvidenceOf d) (evidence_of observations phase d)
  unfolding evidence_of
  IsEvidenceOf-evidence_of d = OkAnd-then (IsEvidenceOf d) (observed d.resource_id _) _ λ raw saw.
      OkAnd-then (IsEvidenceOf d) (observation_of raw phase) _ λ o read.
        OkAnd-then (IsEvidenceOf d) (assess_device_dependency d.contract o) _
          λ a judged. (refl, refl, (raw, o, saw, read, judged))

  tally_evidence_adds :
      (e : Evidence F) (t : Tally F) → (tally_evidence e t).evidence ≡ t.evidence ++ e ∷ []
  unfolding tally_evidence
  tally_evidence_adds e t =
      if_ind (λ (u : Tally F). u.evidence ≡ t.evidence ++ e ∷ []) (is_blocking e) refl refl

  -- What the loop adds to the evidence that it starts from.
  abbrev Adds : List (Evidence F) → List (RouteDependency F) → Tally F → Type 0
  Adds old ds t = (es : List (Evidence F)) × (t.evidence ≡ old ++ es) × Covers ds es

  Adds-tally_all :
      (ds : List (RouteDependency F)) (t : Tally F)
      → OkAnd (Adds t.evidence ds) (tally_all observations phase ds t)
  unfolding tally_all
  Adds-tally_all [] t = ([], sym (append-nil t.evidence), tt)
  Adds-tally_all (d ∷ ds) t =
      OkAnd-bind (Adds t.evidence (d ∷ ds)) (IsEvidenceOf d) (evidence_of observations phase d) _
        (IsEvidenceOf-evidence_of d)
        λ e is.
          weaken e is (tally_all observations phase ds (tally_evidence e t))
            (Adds-tally_all ds (tally_evidence e t))
    where
      weaken :
          (e : Evidence F)
          → IsEvidenceOf d e
          → (r : Result (Tally F)) → OkAnd (Adds (tally_evidence e t).evidence ds) r
          → OkAnd (Adds t.evidence (d ∷ ds)) r
      weaken e is (raised x) h = tt
      weaken e is (ok u) (es, same, covers) = (
        e ∷ es,
        same
            ∙ ap (λ log. log ++ es) (tally_evidence_adds e t)
            ∙ append_assoc t.evidence (e ∷ []) es,
        (is, covers),
      )

  IsItemOf-evaluate_route :
      (route : RouteOption F)
      → OkAnd (λ item. IsItemOf item route) (evaluate_route observations phase route)
  unfolding evaluate_route
  IsItemOf-evaluate_route route =
      let start : Tally F = record {
        score = route.base_score;
        evidence = [];
        exclusion_reasons = [];
        reason_codes = route.reason_codes;
      } in
      OkAnd-bind (λ item. IsItemOf item route) (Adds [] route.dependencies)
        (tally_all observations phase route.dependencies start) _
        (Adds-tally_all route.dependencies start)
        λ t (es, same, covers). (refl, refl, subst (Covers route.dependencies) (sym same) covers)

  All-IsFrom :
      (route : RouteOption F) (routes : List (RouteOption F)) (items : List (RouteItem F))
      → All (IsFrom routes) items
      → All (IsFrom (route ∷ routes)) items
  All-IsFrom route routes [] h = tt
  All-IsFrom route routes (item ∷ items) h = (inr h.0, All-IsFrom route routes items h.1)

  pub All-evaluate_routes :
      (routes : List (RouteOption F))
      → OkAnd (All (IsFrom routes)) (evaluate_routes observations phase routes)
  unfolding evaluate_routes
  All-evaluate_routes [] = tt
  All-evaluate_routes (route ∷ routes) =
      OkAnd-bind (All (IsFrom (route ∷ routes))) (λ item. IsItemOf item route)
        (evaluate_route observations phase route) _ (IsItemOf-evaluate_route route)
        λ item one.
          OkAnd-bind (All (IsFrom (route ∷ routes))) (All (IsFrom routes))
            (evaluate_routes observations phase routes) _ (All-evaluate_routes routes)
            λ items all. (inl one, All-IsFrom route routes items all)
