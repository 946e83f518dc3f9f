-- ===== src/SemanticMap/Store.antt =====
-- semantic_map.py: `SemanticLocationStore`, whose file is its text.
use flyto_robotics.Prelude.{
  ℕ, String, not, ◌+◌, Option, none, some, List, [], ◌∷◌, ◌++◌, ltb, ◌==◌, str_eq, insert, lookup,
  format,
}
use flyto_robotics.Python.{Value, Runtime, Result, ok, raised, semantic_map_error, os_error}
use flyto_robotics.Python.Checks.{raise_if, ◌>>=◌, ◌>>◌}
use flyto_robotics.Contracts.{StationPose}
use flyto_robotics.SemanticMap.{
  SemanticLocation, SemanticLocationMap, identifier, label_of, check_pose, check_location,
  check_map, without_repeats, by_id, sort_locations, to_dict,
}
use flyto_robotics.SemanticMap.Document.{parse_semantic_location_map}

-- The file's text, if there is a file: `none` where it is not readable as UTF-8. The lock makes the
-- calls follow one another.
pub record SemanticLocationStore (F : Type 0) : Type 0 where
  pub map_id : String
  pub contents : Option (Option String)
  pub write_fault : Option String

module _ {F : Type 0} ⦃rt : Runtime F⦄ where
  unfoldable pub decoded_of : Option (Value F) → Result (Value F)
  decoded_of none = raised (semantic_map_error "semantic map must contain readable UTF-8 JSON")
  decoded_of (some document) = ok document

  unfoldable pub load_text : String → Option String → Result (SemanticLocationMap F)
  unfolding decoded_of parse_semantic_location_map
  load_text expected none =
      raised (semantic_map_error "semantic map must contain readable UTF-8 JSON")
  load_text expected (some written) = do
    raise_if (ltb 262144 (rt.utf8_length written))
        (semantic_map_error "semantic map exceeds 262144 bytes")
    document ← decoded_of (rt.json_loads written)
    snapshot ← parse_semantic_location_map document
    raise_if (not (str_eq snapshot.map_id expected)) (
        semantic_map_error (
          format (
            "semantic map_id mismatch: expected " ∷ expected ∷ ", received " ∷ snapshot.map_id
            ∷ [])))
    ok snapshot

  unfoldable pub load_contents : String → Option (Option String) → Result (SemanticLocationMap F)
  unfolding load_text
  load_contents expected none = do
    map_id ← identifier expected "semantic_map.map_id"
    ok (record { map_id = map_id; revision = 0; locations = [] })
  load_contents expected (some file) = load_text expected file

  -- The store reads its file; a file of another map is refused.
  unfoldable pub load : SemanticLocationStore F → Result (SemanticLocationMap F)
  unfolding load_contents
  load store = load_contents store.map_id store.contents

  abbrev labels_with : Option (SemanticLocation F) → String → List String
  labels_with none label = label ∷ []
  labels_with (some previous) label = without_repeats [] (previous.labels ++ label ∷ [])

  -- The test of the caller's revision.
  abbrev pub check_revision : Option ℕ → SemanticLocationMap F → Result (Unit {0})
  check_revision none snapshot = ok tt
  check_revision (some expected) snapshot =
      raise_if (not (snapshot.revision == expected))
        (semantic_map_error "semantic map revision changed before location write")

  abbrev pub new_location :
      SemanticLocationMap F → String → String → StationPose F → SemanticLocation F
  new_location snapshot safe_id label pose = record {
    location_id = safe_id;
    labels = labels_with (lookup safe_id (by_id snapshot.locations)) label;
    pose = record { station_id = safe_id; x = pose.x; y = pose.y; yaw = pose.yaw };
  }

  abbrev pub with_location :
      SemanticLocationStore F → SemanticLocationMap F → SemanticLocation F → SemanticLocationMap F
  with_location store snapshot location = record {
    map_id = store.map_id;
    revision = snapshot.revision + 1;
    locations = sort_locations (insert location.location_id location (by_id snapshot.locations));
  }

  abbrev pub check_size : SemanticLocationMap F → Result (Unit {0})
  check_size updated =
      raise_if (ltb 262144 (rt.utf8_length (rt.json_dump (to_dict updated))))
        (semantic_map_error "semantic map exceeds 262144 bytes")

  -- The new map that `remember` writes, or its refusal.
  unfoldable pub remembered :
      SemanticLocationStore F
      → String
      → String
      → StationPose F
      → Option ℕ
      → Result (SemanticLocationMap F)
  unfolding load check_location check_map label_of check_pose sort_locations to_dict
  remembered store location_id label pose expected_revision = do
    safe_id ← identifier location_id "location_id"
    safe_label ← label_of rt.normalize_label label "label"
    check_pose "pose." pose.x pose.y pose.yaw
    snapshot ← load store
    check_revision expected_revision snapshot
    let location = new_location snapshot safe_id safe_label pose
    check_location location
    let updated = with_location store snapshot location
    check_map updated
    check_size updated
    ok updated

  -- `write_json_atomic`: the file is replaced as a whole, or the call raises and it is as it was.
  unfoldable pub write :
      SemanticLocationStore F
      → SemanticLocationMap F
      → Result (SemanticLocationMap F) × SemanticLocationStore F
  write store updated = elim store.write_fault [
    | some fault ↦ (raised (os_error fault), store)
    | none ↦ (ok updated, record store { contents = some (some (rt.json_dump (to_dict updated))) })
  ]

  -- `store.remember(...)`: the file is written last, so a refusal leaves it as it was.
  unfoldable pub remember :
      SemanticLocationStore F
      → String
      → String
      → StationPose F
      → Option ℕ
      → Result (SemanticLocationMap F) × SemanticLocationStore F
  unfolding remembered write
  remember store location_id label pose expected_revision =
      elim (remembered store location_id label pose expected_revision) [
        | raised e ↦ (raised e, store)
        | ok updated ↦ write store updated
      ]
