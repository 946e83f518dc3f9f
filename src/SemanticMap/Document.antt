-- ===== src/SemanticMap/Document.antt =====
-- semantic_map.py: `parse_semantic_location_map`, on a decoded JSON document.
use flyto_robotics.Prelude.{
  ℕ, ◌+◌, ◌==◌, String, Bool, false, not, ◌&&◌, Option, some, List, [], ◌∷◌, if◌then◌else◌, leb,
  length, str_eq, format, sort_by, text_le,
}
use flyto_robotics.Prelude.Int.{pos, negsuc}
use flyto_robotics.Python.{
  Value, integer, number, text, array, object, Items, nil, cons, Fields, Runtime, Result, ok,
  raised, semantic_map_error,
}
use flyto_robotics.Python.Mappings.{
  field, keys, join, items_length, without, unknown_names, is_nothing,
}
use flyto_robotics.Python.Checks.{raise_if, ◌>>=◌, ◌>>◌}
use flyto_robotics.SemanticMap.{
  SemanticLocation, SemanticLocationMap, identifier, label_of, number_between, without_repeats,
  check_location, check_map,
}

abbrev pub map_fields : List String
map_fields = "contract_version" ∷ "map_id" ∷ "revision" ∷ "locations" ∷ []

abbrev pub location_fields : List String
location_fields = "location_id" ∷ "labels" ∷ "pose" ∷ []

abbrev pub pose_fields : List String
pose_fields = "x" ∷ "y" ∷ "yaw" ∷ []

abbrev pub rejected {ℓ} : {A : Type ℓ} → List String → Result A
rejected parts = raised (semantic_map_error (format parts))

module _ {F : Type 0} where
  -- `set(raw) == names`
  abbrev pub has_exactly : List String → Fields F → Bool
  has_exactly names raw =
      is_nothing (without names (keys raw)) && is_nothing (without (keys raw) names)

  abbrev pub is_version : Option (Value F) → Bool
  is_version (some (text s)) = str_eq s "flyto.robotics.semantic-location-map.v1"
  is_version _ = false

  unfoldable pub identifier_from : Option (Value F) → String → Result String
  identifier_from (some (text s)) name = identifier s name
  identifier_from _ name = rejected (name ∷ " must be a safe identifier" ∷ [])

  unfoldable pub bounded_items : ℕ → ℕ → List String → Option (Value F) → Result (Items F)
  bounded_items least most message (some (array vs)) =
      if leb least (items_length vs) && leb (items_length vs) most then ok vs else rejected message
  bounded_items least most message _ = rejected message

  unfoldable pub pose_of : String → Option (Value F) → Result (Fields F)
  pose_of name (some (object raw)) =
      if has_exactly pose_fields raw
      then ok raw
      else rejected (name ∷ ".pose requires only x, y, and yaw" ∷ [])
  pose_of name _ = rejected (name ∷ ".pose requires only x, y, and yaw" ∷ [])

  -- The test of the type, and the one of the constructor for the sign.
  unfoldable pub revision_from : Option (Value F) → Result ℕ
  revision_from (some (integer (pos n))) = ok n
  revision_from (some (integer (negsuc n))) =
      rejected ("semantic_map.revision cannot be negative" ∷ [])
  revision_from _ = rejected ("semantic_map.revision must be an integer" ∷ [])

abbrev pub indexed : (F : Type 0) → ⦃rt : Runtime F⦄ → String → ℕ → String
indexed F ⦃rt⦄ name index = format (name ∷ "[" ∷ rt.repr (integer (pos index)) ∷ "]" ∷ [])

module _ {F : Type 0} ⦃rt : Runtime F⦄ where
  unfoldable pub labels_from : String → ℕ → Items F → Result (List String)
  labels_from name index nil = ok []
  labels_from name index (cons (text s) vs) = do
    label ← label_of rt.normalize_label s (indexed F name index)
    rest ← labels_from name (index + 1) vs
    ok (label ∷ rest)
  labels_from name index (cons v vs) = rejected (indexed F name index ∷ " must be text" ∷ [])

  unfoldable pub number_from : Option (Value F) → String → F → F → Result F
  number_from (some (integer z)) name minimum maximum =
      number_between (rt.of_integer z) name minimum maximum
  number_from (some (number x)) name minimum maximum = number_between x name minimum maximum
  number_from _ name minimum maximum = rejected (name ∷ " must be a number" ∷ [])

  abbrev pub kilometer : F
  kilometer = rt.decimal 10000 1

  unfoldable pub location_of : String → Fields F → Result (SemanticLocation F)
  location_of name raw = do
    raise_if (not (has_exactly location_fields raw))
        (semantic_map_error (format (name ∷ " requires only location_id, labels, and pose" ∷ [])))
    raw_labels ←
        bounded_items 1 32 (name ∷ ".labels must contain 1 to 32 items" ∷ []) (field "labels" raw)
    labels ← labels_from (format (name ∷ ".labels" ∷ [])) 0 raw_labels
    raise_if (not (length (without_repeats [] labels) == items_length raw_labels))
        (semantic_map_error (format (name ∷ ".labels must be normalized and unique" ∷ [])))
    raw_pose ← pose_of name (field "pose" raw)
    location_id ← identifier_from (field "location_id" raw) (format (name ∷ ".location_id" ∷ []))
    x ←
        number_from (field "x" raw_pose) (format (name ∷ ".pose.x" ∷ [])) (rt.neg kilometer)
          kilometer
    y ←
        number_from (field "y" raw_pose) (format (name ∷ ".pose.y" ∷ [])) (rt.neg kilometer)
          kilometer
    yaw ← number_from (field "yaw" raw_pose) (format (name ∷ ".pose.yaw" ∷ [])) (rt.neg rt.pi) rt.pi
    let location : SemanticLocation F = record {
      location_id = location_id;
      labels = without_repeats [] labels;
      pose = record { station_id = location_id; x = x; y = y; yaw = yaw };
    }
    check_location location
    ok location

  unfoldable pub location_from : ℕ → Value F → Result (SemanticLocation F)
  unfolding location_of
  location_from index (object raw) = location_of (indexed F "semantic_map.locations" index) raw
  location_from index v =
      rejected (indexed F "semantic_map.locations" index ∷ " must be an object" ∷ [])

  unfoldable pub locations_from : ℕ → Items F → Result (List (SemanticLocation F))
  unfolding location_from
  locations_from index nil = ok []
  locations_from index (cons v vs) = do
    location ← location_from index v
    rest ← locations_from (index + 1) vs
    ok (location ∷ rest)

  abbrev pub by_location_id : SemanticLocation F → SemanticLocation F → Bool
  by_location_id a b = text_le a.location_id b.location_id

  unfoldable pub map_of : Fields F → Result (SemanticLocationMap F)
  map_of raw = do
    raise_if (not (is_nothing (without map_fields (keys raw)))) (
        semantic_map_error (
          format (
            "semantic_map contains unsupported fields: "
            ∷ join (unknown_names map_fields (keys raw))
            ∷ [])))
    raise_if (not (is_nothing (without (keys raw) map_fields))) (
        semantic_map_error
          (format ("semantic_map is missing: " ∷ join (unknown_names (keys raw) map_fields) ∷ [])))
    raise_if (not (is_version (field "contract_version" raw))) (
        semantic_map_error
          "semantic_map.contract_version must be flyto.robotics.semantic-location-map.v1")
    raw_locations ←
        bounded_items 0 2048 ("semantic_map.locations must contain at most 2048 items" ∷ [])
          (field "locations" raw)
    locations ← locations_from 0 raw_locations
    revision ← revision_from (field "revision" raw)
    map_id ← identifier_from (field "map_id" raw) "semantic_map.map_id"
    let snapshot : SemanticLocationMap F = record {
      map_id = map_id;
      revision = revision;
      locations = sort_by by_location_id locations;
    }
    check_map snapshot
    ok snapshot

  unfoldable pub parse_semantic_location_map : Value F → Result (SemanticLocationMap F)
  unfolding map_of
  parse_semantic_location_map (object raw) = map_of raw
  parse_semantic_location_map v = rejected ("semantic_map must be an object" ∷ [])
