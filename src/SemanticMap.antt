-- ===== src/SemanticMap.antt =====
-- flyto_robotics/semantic_map.py: the location memory of one physical map, its locations with the
-- checks of the constructors, and their JSON document.
pub mod Document
pub mod Store
pub mod Reading
pub mod RoundTrip
pub mod Recall
pub mod Saving
use Prim.Native.String.{compare}
use Prim.Native.Nat.{Ordering}
use flyto_robotics.Prelude.{
  ℕ, String, Bool, true, false, not, ◌+◌, ◌&&◌, Option, none, some, List, [], ◌∷◌, ◌++◌, map,
  if◌then◌else◌, length, leb, ltb, ◌==◌, contains, str_eq, insert, sort_by, text_le, lookup, format,
}
use flyto_robotics.Prelude.Int.{pos}
use flyto_robotics.Python.{
  Value, integer, number, text, array, object, Items, nil, cons, end, entry, Runtime, Result, ok,
  raised, semantic_map_error, os_error,
}
use flyto_robotics.Python.Checks.{raise_if, ◌>>=◌, ◌>>◌}
use flyto_robotics.Capabilities.{safe_text}
use flyto_robotics.Contracts.{StationPose}
use flyto_robotics.Workflow.{distinct}

pub record SemanticLocation (F : Type 0) : Type 0 where
  pub location_id : String
  pub labels : List String
  pub pose : StationPose F

pub record SemanticLocationMap (F : Type 0) : Type 0 where
  pub map_id : String
  pub revision : ℕ
  pub locations : List (SemanticLocation F)

-- `tuple(dict.fromkeys(labels))`
abbrev pub without_repeats : List String → List String → List String
without_repeats seen [] = []
without_repeats seen (x ∷ xs) =
    let rest = without_repeats (if contains x seen then seen else x ∷ seen) xs in
    if contains x seen then rest else x ∷ rest

abbrev pub identifier : String → String → Result String
identifier value field_name =
    if safe_text value
    then ok value
    else raised (semantic_map_error (format (field_name ∷ " must be a safe identifier" ∷ [])))

module _ {F : Type 0} where
  abbrev pub by_id : List (SemanticLocation F) → List (String × SemanticLocation F)
  by_id [] = []
  by_id (l ∷ ls) = (l.location_id, l) ∷ by_id ls

  -- `sorted(by_id.values(), key=lambda item: item.location_id)`
  unfoldable pub sort_locations : List (String × SemanticLocation F) → List (SemanticLocation F)
  sort_locations entries =
      sort_by (λ a b. text_le a.location_id b.location_id) (map (λ e. e.1) entries)

  unfoldable pub label_items : List String → Items F
  label_items [] = nil
  label_items (l ∷ ls) = cons (text l) (label_items ls)

  unfoldable pub location_to_dict : SemanticLocation F → Value F
  unfolding label_items
  location_to_dict l = object (
      entry "location_id" (text l.location_id) (
        entry "labels" (array (label_items l.labels)) (
          entry "pose"
            (object (
              entry "x" (number l.pose.x)
                (entry "y" (number l.pose.y) (entry "yaw" (number l.pose.yaw) end))))
            end)))

  unfoldable pub location_items : List (SemanticLocation F) → Items F
  unfolding location_to_dict
  location_items [] = nil
  location_items (l ∷ ls) = cons (location_to_dict l) (location_items ls)

  unfoldable pub to_dict : SemanticLocationMap F → Value F
  unfolding location_items
  to_dict m = object (
      entry "contract_version" (text "flyto.robotics.semantic-location-map.v1") (
        entry "map_id" (text m.map_id) (
          entry "revision" (integer (pos m.revision))
            (entry "locations" (array (location_items m.locations)) end))))

module _ (normalize : String → Option String) where
  unfoldable pub label_of : String → String → Result String
  label_of value field_name = elim (normalize value) [
    | none ↦
        raised (
          semantic_map_error (format (field_name ∷ " must be bounded printable Unicode text" ∷ [])))
    | some normalized ↦ ok normalized
  ]

  unfoldable pub labels_of : List String → Result (List String)
  unfolding label_of
  labels_of [] = ok []
  labels_of (l ∷ ls) = do
    label ← label_of l "semantic_location.labels"
    rest ← labels_of ls
    ok (label ∷ rest)

abbrev pub same_labels : List String → List String → Bool
same_labels [] [] = true
same_labels (l ∷ ls) (m ∷ ms) = str_eq l m && same_labels ls ms
same_labels _ _ = false

module _ {F : Type 0} ⦃rt : Runtime F⦄ where
  unfoldable pub number_between : F → String → F → F → Result F
  number_between value field_name minimum maximum =
      if rt.is_finite value && (rt.le minimum value && rt.le value maximum)
      then ok value
      else raised (
          semantic_map_error (
            format (
              field_name
              ∷ " must be between "
              ∷ rt.repr (number minimum)
              ∷ " and "
              ∷ rt.repr (number maximum)
              ∷ [])))

  -- The pose's coordinates, checked in the order of the source.
  unfoldable pub check_pose : String → F → F → F → Result (Unit {0})
  unfolding number_between
  check_pose owner x y yaw = do
    x ←
        number_between x (format (owner ∷ "x" ∷ [])) (rt.neg (rt.decimal 10000 1))
          (rt.decimal 10000 1)
    y ←
        number_between y (format (owner ∷ "y" ∷ [])) (rt.neg (rt.decimal 10000 1))
          (rt.decimal 10000 1)
    yaw ← number_between yaw (format (owner ∷ "yaw" ∷ [])) (rt.neg rt.pi) rt.pi
    ok tt

  -- `SemanticLocation.__post_init__`
  unfoldable pub check_location : SemanticLocation F → Result (Unit {0})
  unfolding labels_of check_pose
  check_location l = do
    safe_id ← identifier l.location_id "semantic_location.location_id"
    raise_if (not (leb 1 (length l.labels) && leb (length l.labels) 32))
        (semantic_map_error "semantic_location.labels must contain 1 to 32 items")
    labels ← labels_of rt.normalize_label l.labels
    raise_if (not (same_labels (without_repeats [] labels) l.labels))
        (semantic_map_error "semantic_location.labels must be normalized and unique")
    raise_if (not (str_eq l.pose.station_id l.location_id))
        (semantic_map_error "semantic_location.pose.station_id must match location_id")
    check_pose "semantic_location.pose." l.pose.x l.pose.y l.pose.yaw

  -- `SemanticLocationMap.__post_init__`
  unfoldable pub check_map : SemanticLocationMap F → Result (Unit {0})
  check_map m = do
    map_id ← identifier m.map_id "semantic_map.map_id"
    raise_if (ltb 2048 (length m.locations))
        (semantic_map_error "semantic_map.locations exceeds 2048 items")
    raise_if (not (distinct (map (λ l. l.location_id) m.locations)))
        (semantic_map_error "semantic_map.location_id values must be unique")
