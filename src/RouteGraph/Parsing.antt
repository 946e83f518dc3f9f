-- ===== src/RouteGraph/Parsing.antt =====
-- route_graph.py: a route graph from decoded JSON, and from a file, which is its size and its text
-- as far as they can be read.
use flyto_robotics.Prelude.{
  ℕ, ◌+◌, String, Bool, false, not, ◌&&◌, Option, none, some, List, [], ◌∷◌, if◌then◌else◌, leb,
  ltb, contains, str_eq, format,
}
use flyto_robotics.Prelude.Int.{ℤ, pos, negsuc, leb_ℤ}
use flyto_robotics.Python.{
  Value, integer, text, array, object, Items, nil, cons, Fields, end, Runtime, Exception,
  dependency_error, route_error, value_error, Result, ok, raised,
}
use flyto_robotics.Python.Platform.{Platform, Json}
use flyto_robotics.Python.Mappings.{
  field, keys, join, items_length, without, unknown_names, is_nothing,
}
use flyto_robotics.Python.Checks.{raise_if, ◌>>=◌, ◌>>◌}
use flyto_robotics.Workflow.{distinct}
use flyto_robotics.DependencyPolicy.{DependencyContract, from_mapping}
use flyto_robotics.RouteGraph.{
  refused, identifier_text, identifier_error, RouteDependency, RouteOption, RouteGraph,
}
use flyto_robotics.RouteGraph.Evaluation.{number_of}

abbrev pub route_graph_contract : String
route_graph_contract = "flyto.robotics.route-graph.v1"

abbrev pub max_route_file_bytes : ℕ
max_route_file_bytes = 262144

abbrev pub graph_fields : List String
graph_fields = "contract_version" ∷ "graph_id" ∷ "revision" ∷ "routes" ∷ []

abbrev pub route_fields : List String
route_fields =
    "route_id" ∷ "location_ids" ∷ "base_score" ∷ "reason_codes" ∷ "attributes" ∷ "dependencies" ∷ []

abbrev translated : Exception → Exception
translated (dependency_error message) = route_error message
translated e = e

-- `except DependencyPolicyError as exc: raise RouteGraphError(str(exc)) from exc`
abbrev pub as_route_error {ℓ} : {A : Type ℓ} → Result A → Result A
as_route_error (ok a) = ok a
as_route_error (raised e) = raised (translated e)

module _ {F : Type 0} where
  abbrev pub is_version : Option (Value F) → Bool
  is_version (some (text s)) = str_eq s route_graph_contract
  is_version _ = false

  unfoldable pub identifier_of : Option (Value F) → String → Result String
  identifier_of (some (text s)) name = identifier_text s name
  identifier_of _ name = identifier_error name

  unfoldable pub identifiers_of : Items F → String → Result (List String)
  unfolding identifier_of
  identifiers_of nil name = ok []
  identifiers_of (cons v vs) name = do
    i ← identifier_of (some v) name
    is ← identifiers_of vs name
    ok (i ∷ is)

  unfoldable pub revision_of : Option (Value F) → Result ℤ
  revision_of (some (integer z)) =
      if leb_ℤ (pos 1) z && leb_ℤ z (pos 1000000)
      then ok z
      else refused ("revision must be a positive integer" ∷ [])
  revision_of _ = refused ("revision must be a positive integer" ∷ [])

  -- A list with its bounds, or the refusal that the caller names.
  unfoldable pub bounded_list : ℕ → ℕ → List String → Option (Value F) → Result (Items F)
  bounded_list least most message (some (array vs)) =
      if leb least (items_length vs) && leb (items_length vs) most then ok vs else refused message
  bounded_list least most message _ = refused message

  abbrev pub or_empty : Option (Value F) → Option (Value F)
  or_empty none = some (array nil)
  or_empty (some v) = some v

  unfoldable pub attributes_of : List String → Option (Value F) → Result (Fields F)
  attributes_of message none = ok end
  attributes_of message (some (object attributes)) = ok attributes
  attributes_of message (some v) = refused message

module _ {F : Type 0} ⦃rt : Runtime F⦄ where
  -- The key is there: the tests of the keys came first.
  abbrev pub contract_of : Option (Value F) → Result (DependencyContract F)
  contract_of none = refused []
  contract_of (some v) = as_route_error (from_mapping v none)

module _ ⦃platform : Platform⦄ where
  -- `routes[{index}]`
  abbrev at_index : ℕ → String
  at_index index = format ("routes[" ∷ platform.str_of_count index ∷ "]" ∷ [])

  abbrev at_dependency : ℕ → ℕ → String
  at_dependency index n =
      format (at_index index ∷ ".dependencies[" ∷ platform.str_of_count n ∷ "]" ∷ [])

  abbrev pub snapshot_of : Option String → Result String
  snapshot_of none = raised (value_error "not JSON serializable")
  snapshot_of (some canonical) = ok (platform.sha256 canonical)

module _ {F : Type 0} ⦃rt : Runtime F⦄ ⦃platform : Platform⦄ where
  abbrev pub has_dependency_keys : Fields F → Bool
  has_dependency_keys raw =
      is_nothing (without ("resource_id" ∷ "contract" ∷ []) (keys raw))
      && is_nothing (without (keys raw) ("resource_id" ∷ "contract" ∷ []))

  unfoldable pub dependency_of : ℕ → ℕ → Value F → Result (RouteDependency F)
  dependency_of index n (object raw) = do
    raise_if (not (has_dependency_keys raw))
        (route_error (format (at_dependency index n ∷ " requires resource_id and contract" ∷ [])))
    contract ← contract_of (field "contract" raw)
    resource_id ← identifier_of (field "resource_id" raw) "route dependency resource_id"
    ok (record { resource_id = resource_id; contract = contract })
  dependency_of index n v = refused (at_dependency index n ∷ " must be an object" ∷ [])

  unfoldable pub dependencies_of : ℕ → ℕ → Items F → Result (List (RouteDependency F))
  unfolding dependency_of
  dependencies_of index n nil = ok []
  dependencies_of index n (cons v vs) = do
    d ← dependency_of index n v
    ds ← dependencies_of index (n + 1) vs
    ok (d ∷ ds)

  abbrev minus_million : F
  minus_million = rt.of_integer (negsuc 999999)

  abbrev million : F
  million = rt.of_integer (pos 1000000)

  abbrev or_null : Option (Value F) → Value F
  or_null none = Value.null
  or_null (some v) = v

  -- A turn of the loop; `seen` are the ids of the routes before this one.
  unfoldable pub route_of : ℕ → List String → Value F → Result (RouteOption F)
  route_of index seen (object raw) = do
    raise_if (not (is_nothing (without route_fields (keys raw)))) (
        route_error (
          format (
            at_index index
            ∷ " contains unsupported fields: "
            ∷ join (unknown_names route_fields (keys raw))
            ∷ [])))
    route_id ← identifier_of (field "route_id" raw) (format (at_index index ∷ ".route_id" ∷ []))
    raise_if (contains route_id seen) (route_error "route_id values must be unique")
    raw_locations ←
        bounded_list 2 64 (at_index index ∷ ".location_ids must contain 2 to 64 items" ∷ [])
          (field "location_ids" raw)
    location_ids ← identifiers_of raw_locations (format (at_index index ∷ ".location_ids" ∷ []))
    raise_if (not (distinct location_ids))
        (route_error (format (at_index index ∷ ".location_ids must not repeat" ∷ [])))
    raw_codes ←
        bounded_list 0 32 (at_index index ∷ ".reason_codes must be a bounded array" ∷ [])
          (or_empty (field "reason_codes" raw))
    attributes ←
        attributes_of (at_index index ∷ ".attributes must be an object" ∷ [])
          (field "attributes" raw)
    raw_dependencies ←
        bounded_list 0 32 (at_index index ∷ ".dependencies must be a bounded array" ∷ [])
          (or_empty (field "dependencies" raw))
    dependencies ← dependencies_of index 0 raw_dependencies
    base_score ←
        number_of (or_null (field "base_score" raw)) (format (at_index index ∷ ".base_score" ∷ []))
          minus_million million
    reason_codes ← identifiers_of raw_codes "route reason code"
    ok (record {
      route_id = route_id;
      location_ids = location_ids;
      base_score = base_score;
      reason_codes = reason_codes;
      attributes = attributes;
      dependencies = dependencies;
    })
  route_of index seen v = refused (at_index index ∷ " must be an object" ∷ [])

  unfoldable pub routes_of : ℕ → List String → Items F → Result (List (RouteOption F))
  routes_of index seen nil = ok []
  routes_of index seen (cons v vs) = do
    route ← route_of index seen v
    routes ← routes_of (index + 1) (route.route_id ∷ seen) vs
    ok (route ∷ routes)

module _ {F : Type 0} ⦃rt : Runtime F⦄ ⦃platform : Platform⦄ ⦃json : Json F⦄ where
  unfoldable pub graph_of : Value F → Result (RouteGraph F)
  graph_of (object raw) = do
    raise_if (not (is_nothing (without graph_fields (keys raw)))) (
        route_error (
          format (
            "route graph contains unsupported fields: "
            ∷ join (unknown_names graph_fields (keys raw))
            ∷ [])))
    raise_if (not (is_version (field "contract_version" raw)))
        (route_error (format ("contract_version must be " ∷ route_graph_contract ∷ [])))
    graph_id ← identifier_of (field "graph_id" raw) "graph_id"
    revision ← revision_of (field "revision" raw)
    raw_routes ←
        bounded_list 2 64 ("routes must contain 2 to 64 alternatives" ∷ []) (field "routes" raw)
    routes ← routes_of 0 [] raw_routes
    snapshot ← snapshot_of (json.dumps (object raw))
    ok (record { graph_id = graph_id; revision = revision; routes = routes; snapshot = snapshot })
  graph_of v = refused ("route graph must be an object" ∷ [])

  abbrev decoded : Option (Value F) → Result (RouteGraph F)
  decoded none = refused ("route graph file must contain UTF-8 JSON" ∷ [])
  decoded (some v) = graph_of v

  abbrev readable : Option String → Result (RouteGraph F)
  readable none = refused ("route graph file must contain UTF-8 JSON" ∷ [])
  readable (some contents) = decoded (json.loads contents)

  -- `load_route_graph`, on what `stat` and `read_text` give.
  unfoldable pub load_route_graph : Option ℕ → Option String → Result (RouteGraph F)
  load_route_graph none contents = refused ("route graph file is not readable" ∷ [])
  load_route_graph (some size) contents =
      if ltb max_route_file_bytes size
      then refused ("route graph file exceeds the byte limit" ∷ [])
      else readable contents
