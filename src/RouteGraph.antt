-- ===== src/RouteGraph.antt =====
-- flyto_robotics/route_graph.py: route alternatives, and the evaluation that filters and ranks them.
pub mod Evaluation
pub mod Parsing
pub mod Gathered
pub mod Usable
pub mod Filtering
pub mod Ranking
pub mod Shape
pub mod Validity
use flyto_robotics.Prelude.{
  ℕ, String, Bool, true, false, not, ◌&&◌, ◌||◌, Option, none, some, List, [], ◌∷◌, ◌++◌, length,
  take, if◌then◌else◌, leb, ◌==◌, contains, str_eq, codes, lookup, format, sort_by, text_le,
  or_else,
}
use flyto_robotics.Prelude.Int.{ℤ, pos, pos_part, leb_ℤ}
use flyto_robotics.Python.{
  Value, flag, integer, number, text, object, Fields, end, Runtime, Result, ok, raised, route_error,
}
use flyto_robotics.Python.Mappings.{field}
use flyto_robotics.Python.Checks.{raise_if, ◌>>=◌, ◌>>◌}
use flyto_robotics.Capabilities.{is_alphanumeric}
use flyto_robotics.SemanticMap.{without_repeats}
use flyto_robotics.DependencyPolicy.{DependencyContract, DependencyAssessment, to_mapping}
use flyto_robotics.DependencyPolicy.Assessment.{Observation, assess_device_dependency}

abbrev pub blocking_actions : List String
blocking_actions =
    "abort_and_invalidate" ∷ "pause_and_escalate" ∷ "safe_stop_and_abort" ∷ "safe_stop_and_escalate"
    ∷ []

abbrev pub action_penalties : List (String × ℕ)
action_penalties =
    ("use_resource", 0)
    ∷ ("switch_substitute", 8)
    ∷ ("safe_stop_then_switch_substitute", 12)
    ∷ ("pause_then_switch_substitute", 12)
    ∷ ("continue_degraded", 20)
    ∷ ("continue_without_resource", 30)
    ∷ ("ignore_outside_scope", 0)
    ∷ []

abbrev pub route_evaluation_contract : String
route_evaluation_contract = "flyto.robotics.route-evaluation.v1"

abbrev pub refused {ℓ} : {A : Type ℓ} → List String → Result A
refused message = raised (route_error (format message))

abbrev identifier_code : ℕ → Bool
identifier_code c =
    is_alphanumeric c
    || (c == b'.' || (c == b'_' || (c == b':' || (c == b'@' || (c == b'/' || c == b'-')))))

abbrev all_identifier_codes : List ℕ → Bool
all_identifier_codes [] = true
all_identifier_codes (c ∷ cs) = identifier_code c && all_identifier_codes cs

abbrev matches_identifier : List ℕ → Bool
matches_identifier [] = false
matches_identifier (c ∷ cs) = is_alphanumeric c && (all_identifier_codes cs && leb (length cs) 255)

-- `IDENTIFIER.fullmatch(value)`
unfoldable pub is_identifier : String → Bool
unfolding is_alphanumeric
is_identifier value = matches_identifier (codes value)

abbrev pub identifier_error {ℓ} : {A : Type ℓ} → String → Result A
identifier_error name = refused (name ∷ " must be a safe identifier" ∷ [])

unfoldable pub identifier_text : String → String → Result String
unfolding is_identifier
identifier_text value name = if is_identifier value then ok value else identifier_error name

pub record RouteDependency (F : Type 0) : Type 0 where
  pub resource_id : String
  pub contract : DependencyContract F

pub record RouteOption (F : Type 0) : Type 0 where
  pub route_id : String
  pub location_ids : List String
  pub base_score : F
  pub reason_codes : List String
  pub attributes : Fields F
  pub dependencies : List (RouteDependency F)

pub record RouteGraph (F : Type 0) : Type 0 where
  pub graph_id : String
  pub revision : ℤ
  pub routes : List (RouteOption F)
  pub snapshot : String

-- The evidence on one dependency of a route.
pub record Evidence (F : Type 0) : Type 0 where
  pub resource_id : String
  pub assessment : DependencyAssessment
  pub dependency : Value F

-- What the loop over the dependencies has gathered.
pub record Tally (F : Type 0) : Type 0 where
  pub score : F
  pub evidence : List (Evidence F)
  pub exclusion_reasons : List String
  pub reason_codes : List String

-- An evaluated route; `exclusion_reasons` is empty where the item has no such key.
pub record RouteItem (F : Type 0) : Type 0 where
  pub route_id : String
  pub location_ids : List String
  pub score : F
  pub reason_codes : List String
  pub attributes : Fields F
  pub dependencies : List (Evidence F)
  pub exclusion_reasons : List String

pub record RouteEvaluation (F : Type 0) : Type 0 where
  pub contract_version : String
  pub graph_id : String
  pub graph_revision : ℤ
  pub graph_snapshot : String
  pub phase : String
  pub candidates : List (RouteItem F)
  pub excluded : List (RouteItem F)
  pub candidate_count : ℕ
  pub excluded_count : ℕ

module _ {F : Type 0} where
  unfoldable pub observed : String → Option (Value F) → Result (Fields F)
  observed resource none = ok end
  observed resource (some (object observation)) = ok observation
  observed resource (some v) =
      refused ("resource observation " ∷ resource ∷ " must be an object" ∷ [])

  abbrev flag_or : String → Option (Value F) → Result Bool
  flag_or name none = ok false
  flag_or name (some (flag b)) = ok b
  flag_or name (some v) = refused ("resource observation " ∷ name ∷ " must be boolean" ∷ [])

  -- `_boolean(observation, name, False)`
  unfoldable pub boolean : Fields F → String → Result Bool
  boolean observation name = flag_or name (field name observation)

  abbrev pub is_blocking : Evidence F → Bool
  is_blocking e = contains e.assessment.action blocking_actions

  abbrev pub is_excluded : RouteItem F → Bool
  is_excluded item = elim item.exclusion_reasons [ [] ↦ false | reason ∷ more ↦ true ]

  abbrev pub candidates_of : List (RouteItem F) → List (RouteItem F)
  candidates_of [] = []
  candidates_of (item ∷ items) =
      let rest = candidates_of items in if is_excluded item then rest else item ∷ rest

  abbrev pub excluded_of : List (RouteItem F) → List (RouteItem F)
  excluded_of [] = []
  excluded_of (item ∷ items) =
      let rest = excluded_of items in if is_excluded item then item ∷ rest else rest
