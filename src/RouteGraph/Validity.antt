-- ===== src/RouteGraph/Validity.antt =====
-- route_graph.py: what a parsed route graph satisfies.
use flyto_robotics.Prelude.{
  ◌≡◌, refl, ◌⊎◌, inl, inr, ℕ, ◌+◌, String, true, false, not, ◌&&◌, Option, none, some, List, [],
  ◌∷◌, length, contains, All, if_split, arith,
}
use flyto_robotics.Prelude.Int.{pos, negsuc}
use flyto_robotics.Python.{
  Value, null, flag, integer, number, text, array, object, Items, nil, cons, Runtime, Result, ok,
  raised,
}
use flyto_robotics.Python.Platform.{Platform, Json}
use flyto_robotics.Python.Mappings.{field, keys, items_length, without, is_nothing}
use flyto_robotics.Python.Checks.{OkAnd, OkAnd-bind, OkAnd-then, OkAnd-test_then}
use flyto_robotics.Workflow.{distinct}
use flyto_robotics.DependencyPolicy.{DependencyContract, observer_default, from_mapping}
use flyto_robotics.DependencyPolicy.Validity.{IsContract, from_mapping-IsContract}
use flyto_robotics.RouteGraph.{RouteDependency, RouteOption, RouteGraph}
use flyto_robotics.RouteGraph.Evaluation.{number_of, bounded}
use flyto_robotics.RouteGraph.Parsing.{
  identifier_of, identifiers_of, revision_of, bounded_list, attributes_of, contract_of, snapshot_of,
  as_route_error, has_dependency_keys, graph_fields, route_fields, or_empty, is_version,
  dependency_of, dependencies_of, route_of, routes_of, graph_of,
}
use flyto_robotics.RouteGraph.Shape.{
  IsIdentifier, IsDependency, IsRoute, NewIds, IsGraph, IsIdentifier-identifier_of, Named,
  Named-identifiers_of, Counted, Counted-bounded_list, InRevision, InRevision-revision_of,
}

module _ {F : Type 0} ⦃rt : Runtime F⦄ where
  abbrev Contracted : DependencyContract F → Type 0
  Contracted c = IsContract c ⊎ (c ≡ observer_default)

  OkAnd-as_route_error :
      (r : Result (DependencyContract F)) → OkAnd IsContract r → OkAnd Contracted (as_route_error r)
  OkAnd-as_route_error (ok c) h = inl h
  OkAnd-as_route_error (raised e) h = tt

  Contracted-contract_of : (v : Option (Value F)) → OkAnd Contracted (contract_of v)
  unfolding from_mapping
  Contracted-contract_of none = tt
  Contracted-contract_of (some null) = inr refl
  Contracted-contract_of (some (object raw)) =
      OkAnd-as_route_error (from_mapping (object raw) none) (from_mapping-IsContract raw none)
  Contracted-contract_of (some (flag b)) = tt
  Contracted-contract_of (some (integer z)) = tt
  Contracted-contract_of (some (number x)) = tt
  Contracted-contract_of (some (text s)) = tt
  Contracted-contract_of (some (array vs)) = tt

  abbrev InScore : F → Type 0
  InScore x =
      (rt.is_finite x ≡ true)
      × ((rt.le (rt.of_integer (negsuc 999999)) x && rt.le x (rt.of_integer (pos 1000000))) ≡ true)

  InScore-bounded :
      (x : F) (name : String)
      → OkAnd InScore (bounded x name (rt.of_integer (negsuc 999999)) (rt.of_integer (pos 1000000)))
  InScore-bounded x name =
      if_split (OkAnd InScore)
        (rt.is_finite x
          && (rt.le (rt.of_integer (negsuc 999999)) x && rt.le x (rt.of_integer (pos 1000000))))
        (λ h. (ground arith, ground arith)) λ h. tt

  InScore-number_of :
      (v : Value F) (name : String)
      → OkAnd InScore
          (number_of v name (rt.of_integer (negsuc 999999)) (rt.of_integer (pos 1000000)))
  unfolding number_of
  InScore-number_of (integer z) name = InScore-bounded (rt.of_integer z) name
  InScore-number_of (number x) name = InScore-bounded x name
  InScore-number_of (flag b) name = tt
  InScore-number_of null name = tt
  InScore-number_of (text s) name = tt
  InScore-number_of (array vs) name = tt
  InScore-number_of (object raw) name = tt

module _ {F : Type 0} ⦃rt : Runtime F⦄ ⦃platform : Platform⦄ where
  IsDependency-dependency_of :
      (index n : ℕ) (v : Value F) → OkAnd IsDependency (dependency_of index n v)
  unfolding dependency_of
  IsDependency-dependency_of index n (object raw) =
      let Good : RouteDependency F → Type 0 = IsDependency in
      OkAnd-test_then Good (not (has_dependency_keys raw)) _ _ λ keys_fit.
        OkAnd-bind Good Contracted (contract_of (field "contract" raw)) _
          (Contracted-contract_of (field "contract" raw))
          λ c h.
            OkAnd-bind Good IsIdentifier (identifier_of (field "resource_id" raw) _) _
              (IsIdentifier-identifier_of (field "resource_id" raw) _)
              λ i k. record { resource = k; contract = h }
  IsDependency-dependency_of index n (integer z) = tt
  IsDependency-dependency_of index n (number x) = tt
  IsDependency-dependency_of index n (flag b) = tt
  IsDependency-dependency_of index n null = tt
  IsDependency-dependency_of index n (text s) = tt
  IsDependency-dependency_of index n (array vs) = tt

  abbrev Depends : Items F → List (RouteDependency F) → Type 0
  Depends vs ds = All IsDependency ds × (length ds ≡ items_length vs)

  Depends-dependencies_of :
      (index n : ℕ) (vs : Items F) → OkAnd (Depends vs) (dependencies_of index n vs)
  unfolding dependencies_of
  Depends-dependencies_of index n nil = (tt, refl)
  Depends-dependencies_of index n (cons v vs) =
      OkAnd-bind (Depends (cons v vs)) IsDependency (dependency_of index n v) _
        (IsDependency-dependency_of index n v)
        λ d one.
          OkAnd-bind (Depends (cons v vs)) (Depends vs) (dependencies_of index (n + 1) vs) _
            (Depends-dependencies_of index (n + 1) vs)
            λ ds (all, count). ((one, all), omega (arith, count))

  -- A route that is well formed and whose id was not seen.
  abbrev NewRoute : List String → RouteOption F → Type 0
  NewRoute seen r = IsRoute r × (contains r.route_id seen ≡ false)

  NewRoute-route_of :
      (index : ℕ) (seen : List String) (v : Value F) → OkAnd (NewRoute seen) (route_of index seen v)
  unfolding route_of
  NewRoute-route_of index seen (object raw) =
      let New : RouteOption F → Type 0 = NewRoute seen in
      let Few : Items F → Type 0 = Counted 0 32 in
      OkAnd-test_then New (not (is_nothing (without route_fields (keys raw)))) _ _ λ known.
        OkAnd-bind New IsIdentifier (identifier_of (field "route_id" raw) _) _
          (IsIdentifier-identifier_of (field "route_id" raw) _)
          λ route_id id. OkAnd-test_then New (contains route_id seen) _ _ λ new.
            OkAnd-bind New (Counted 2 64) (bounded_list 2 64 _ (field "location_ids" raw)) _
              (Counted-bounded_list 2 64 _ (field "location_ids" raw))
              λ raw_locations location_count.
                OkAnd-bind New (Named raw_locations) (identifiers_of raw_locations _) _
                  (Named-identifiers_of raw_locations _)
                  λ location_ids (locations, same_locations).
                    OkAnd-test_then New (not (distinct location_ids)) _ _ λ no_repeat.
                      OkAnd-bind New Few (bounded_list 0 32 _ (or_empty (field "reason_codes" raw)))
                        _ (Counted-bounded_list 0 32 _ (or_empty (field "reason_codes" raw)))
                        λ raw_codes code_count.
                          OkAnd-then New (attributes_of _ (field "attributes" raw)) _
                            λ attributes _.
                              OkAnd-bind New Few
                                (bounded_list 0 32 _ (or_empty (field "dependencies" raw))) _
                                (Counted-bounded_list 0 32 _ (or_empty (field "dependencies" raw)))
                                λ raw_dependencies dependency_count.
                                  OkAnd-bind New (Depends raw_dependencies)
                                    (dependencies_of index 0 raw_dependencies) _
                                    (Depends-dependencies_of index 0 raw_dependencies)
                                    λ dependencies (all, same).
                                      let Scored : F → Type 0 = InScore in
                                      OkAnd-bind New Scored (number_of _ _ _ _) _
                                        (InScore-number_of _ _)
                                        λ base_score (finite, bounds).
                                          OkAnd-bind New (Named raw_codes)
                                            (identifiers_of raw_codes "route reason code") _
                                            (Named-identifiers_of raw_codes "route reason code")
                                            λ reason_codes (codes, same_codes).
                                              let made : NewRoute seen (record {
                                                route_id = route_id;
                                                location_ids = location_ids;
                                                base_score = base_score;
                                                reason_codes = reason_codes;
                                                attributes = attributes;
                                                dependencies = dependencies;
                                              }) =
                                                (
                                                  record {
                                                    id = id;
                                                    locations = locations;
                                                    location_count = (
                                                      omega
                                                          (arith, same_locations, location_count.0),
                                                      omega
                                                          (arith, same_locations, location_count.1),
                                                    );
                                                    no_repeat = ground arith;
                                                    codes = codes;
                                                    code_count =
                                                        omega (arith, same_codes, code_count.1);
                                                    dependencies = all;
                                                    dependency_count =
                                                        omega (arith, same, dependency_count.1);
                                                    score = finite;
                                                    score_bounds = bounds;
                                                  },
                                                  new,
                                                ) in
                                              made
  NewRoute-route_of index seen (integer z) = tt
  NewRoute-route_of index seen (number x) = tt
  NewRoute-route_of index seen (flag b) = tt
  NewRoute-route_of index seen null = tt
  NewRoute-route_of index seen (text s) = tt
  NewRoute-route_of index seen (array vs) = tt

  abbrev Routed : List String → Items F → List (RouteOption F) → Type 0
  Routed seen vs rs = All IsRoute rs × NewIds seen rs × (length rs ≡ items_length vs)

  Routed-routes_of :
      (index : ℕ) (seen : List String) (vs : Items F)
      → OkAnd (Routed seen vs) (routes_of index seen vs)
  unfolding routes_of
  Routed-routes_of index seen nil = (tt, tt, refl)
  Routed-routes_of index seen (cons v vs) =
      OkAnd-bind (Routed seen (cons v vs)) (NewRoute seen) (route_of index seen v) _
        (NewRoute-route_of index seen v)
        λ r (one, new).
          OkAnd-bind (Routed seen (cons v vs)) (Routed (r.route_id ∷ seen) vs)
            (routes_of (index + 1) (r.route_id ∷ seen) vs) _
            (Routed-routes_of (index + 1) (r.route_id ∷ seen) vs)
            λ rs (all, ids, count). ((one, all), (new, ids), omega (arith, count))

module _ {F : Type 0} ⦃rt : Runtime F⦄ ⦃platform : Platform⦄ ⦃json : Json F⦄ where
  -- A route graph that is parsed has 2 to 64 routes, whose ids differ; each has 2 to 64 locations
  -- that do not repeat, at most 32 reasons and 32 dependencies, all named by identifiers, a finite
  -- score within a million of 0, and contracts that are valid, or that of an observer where the
  -- graph gives none.
  pub IsGraph-graph_of : (v : Value F) → OkAnd IsGraph (graph_of v)
  unfolding graph_of
  IsGraph-graph_of (object raw) =
      let Good : RouteGraph F → Type 0 = IsGraph in
      OkAnd-test_then Good (not (is_nothing (without graph_fields (keys raw)))) _ _ λ known.
        OkAnd-test_then Good (not (is_version (field "contract_version" raw))) _ _ λ version.
          OkAnd-bind Good IsIdentifier (identifier_of (field "graph_id" raw) _) _
            (IsIdentifier-identifier_of (field "graph_id" raw) _)
            λ graph_id id.
              OkAnd-bind Good InRevision (revision_of (field "revision" raw)) _
                (InRevision-revision_of (field "revision" raw))
                λ revision in_revision.
                  OkAnd-bind Good (Counted 2 64) (bounded_list 2 64 _ (field "routes" raw)) _
                    (Counted-bounded_list 2 64 _ (field "routes" raw))
                    λ raw_routes route_count.
                      OkAnd-bind Good (Routed [] raw_routes) (routes_of 0 [] raw_routes) _
                        (Routed-routes_of 0 [] raw_routes)
                        λ routes (all, ids, count).
                          OkAnd-then Good (snapshot_of (json.dumps (object raw))) _ λ snapshot _.
                            record {
                              id = id;
                              revision = in_revision;
                              routes = all;
                              route_count = (
                                omega (arith, count, route_count.0),
                                omega (arith, count, route_count.1),
                              );
                              new_ids = ids;
                            }
  IsGraph-graph_of (integer z) = tt
  IsGraph-graph_of (number x) = tt
  IsGraph-graph_of (flag b) = tt
  IsGraph-graph_of null = tt
  IsGraph-graph_of (text s) = tt
  IsGraph-graph_of (array vs) = tt
