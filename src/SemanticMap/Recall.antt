-- ===== src/SemanticMap/Recall.antt =====
-- semantic_map.py: a location that is remembered is there when the store is read again.
use flyto_robotics.Prelude.{
  ◌≡◌, refl, sym, eq_iff, ℕ, ◌+◌, ◌==◌, String, false, not, Option, none, some, List, [], ◌∷◌, All,
  map, length, ltb, str_eq, if_split, All-sort_by, IsSorted, sort_by-IsSorted, text_le_total,
  insert,
}
use mathlib.Core.Path.{subst}
use flyto_robotics.Python.{
  Value, Fields, Items, nil, cons, object, Runtime, Result, ok, raised, os_error,
}
use flyto_robotics.Python.Mappings.{field, items_length, keys, is_nothing, without}
use flyto_robotics.Python.Checks.{OkAnd, OkAnd-bind, OkAnd-then, OkAnd-test_then}
use flyto_robotics.Contracts.{StationPose}
use flyto_robotics.SemanticMap.{
  SemanticLocation, SemanticLocationMap, identifier, label_of, check_pose, by_id, sort_locations,
  without_repeats, check_location, check_map, to_dict,
}
use flyto_robotics.SemanticMap.Document.{
  by_location_id, has_exactly, location_fields, map_fields, is_version, location_of, location_from,
  locations_from, labels_from, map_of, parse_semantic_location_map, pose_of, bounded_items,
  identifier_from, number_from, revision_from,
}
use flyto_robotics.SemanticMap.Store.{
  SemanticLocationStore, load, load_contents, load_text, decoded_of, check_revision, new_location,
  with_location, remembered, write, remember,
}
use flyto_robotics.SemanticMap.RoundTrip.{Known, document, parse-document}

module _ {F : Type 0} ⦃rt : Runtime F⦄ where
  abbrev AllKnown : SemanticLocationMap F → Type 0
  AllKnown m = All Known m.locations

  Known-location_of : (name : String) (raw : Fields F) → OkAnd Known (location_of name raw)
  unfolding location_of
  Known-location_of name raw =
      OkAnd-test_then Known (not (has_exactly location_fields raw)) _ _ λ _.
        OkAnd-then Known (bounded_items 1 32 _ (field "labels" raw)) _ λ raw_labels _.
          OkAnd-then Known (labels_from _ 0 raw_labels) _ λ labels _.
            OkAnd-test_then Known
              (not (length (without_repeats [] labels) == items_length raw_labels)) _ _
              λ _. OkAnd-then Known (pose_of name (field "pose" raw)) _ λ raw_pose _.
                OkAnd-then Known (identifier_from (field "location_id" raw) _) _ λ id _.
                  OkAnd-then Known (number_from (field "x" raw_pose) _ _ _) _ λ x _.
                    OkAnd-then Known (number_from (field "y" raw_pose) _ _ _) _ λ y _.
                      OkAnd-then Known (number_from (field "yaw" raw_pose) _ _ _) _
                        λ yaw _. OkAnd-then Known (check_location _) (λ _. ok _) λ u e. e

  Known-location_from : (index : ℕ) (v : Value F) → OkAnd Known (location_from index v)
  unfolding location_from
  Known-location_from index (object raw) = Known-location_of _ raw
  Known-location_from index _ = tt

  All-locations_from : (index : ℕ) (vs : Items F) → OkAnd (All Known) (locations_from index vs)
  unfolding locations_from
  All-locations_from index nil = tt
  All-locations_from index (cons v vs) =
      OkAnd-bind (All Known) Known (location_from index v) _ (Known-location_from index v)
        λ l known.
          OkAnd-bind (All Known) (All Known) (locations_from (index + 1) vs) _
            (All-locations_from (index + 1) vs) λ ls all. (known, all)

  AllKnown-map_of : (raw : Fields F) → OkAnd AllKnown (map_of raw)
  unfolding map_of
  AllKnown-map_of raw =
      OkAnd-test_then AllKnown (not (is_nothing (without map_fields (keys raw)))) _ _ λ _.
        OkAnd-test_then AllKnown (not (is_nothing (without (keys raw) map_fields))) _ _ λ _.
          OkAnd-test_then AllKnown (not (is_version (field "contract_version" raw))) _ _ λ _.
            OkAnd-then AllKnown (bounded_items 0 2048 _ (field "locations" raw)) _ λ items _.
              OkAnd-bind AllKnown (All Known) (locations_from 0 items) _
                (All-locations_from 0 items)
                λ ls all. OkAnd-then AllKnown (revision_from (field "revision" raw)) _ λ revision _.
                  OkAnd-then AllKnown (identifier_from (field "map_id" raw) _) _ λ id _.
                    OkAnd-then AllKnown (check_map _) (λ _. ok _)
                      λ u _. All-sort_by by_location_id Known ls all

  AllKnown-parse : (v : Value F) → OkAnd AllKnown (parse_semantic_location_map v)
  unfolding parse_semantic_location_map
  AllKnown-parse (object raw) = AllKnown-map_of raw
  AllKnown-parse _ = tt

  AllKnown-load_contents :
      (store : SemanticLocationStore F) (contents : Option (Option String))
      → OkAnd AllKnown (load_contents store.map_id contents)
  unfolding load_contents load_text
  AllKnown-load_contents store none =
      OkAnd-then AllKnown (identifier store.map_id "semantic_map.map_id") _ λ id _. tt
  AllKnown-load_contents store (some none) = tt
  AllKnown-load_contents store (some (some written)) =
      OkAnd-test_then AllKnown (ltb 262144 (rt.utf8_length written)) _ _ λ _.
        OkAnd-then AllKnown (decoded_of (rt.json_loads written)) _ λ v _.
          OkAnd-bind AllKnown AllKnown (parse_semantic_location_map v) _ (AllKnown-parse v)
            λ m all. OkAnd-test_then AllKnown (not (str_eq m.map_id store.map_id)) _ _ λ _. all

  AllKnown-load : (store : SemanticLocationStore F) → OkAnd AllKnown (load store)
  unfolding load
  AllKnown-load store = AllKnown-load_contents store store.contents

  All-insert :
      (ls : List (SemanticLocation F)) (key : String) (l : SemanticLocation F)
      → All Known ls
      → Known l
      → All Known (map (λ e. e.1) (insert key l (by_id ls)))
  All-insert [] key l h k = (k, tt)
  All-insert (x ∷ ls) key l h k =
      if_split (λ (es : List (String × SemanticLocation F)). All Known (map (λ e. e.1) es))
        (str_eq x.location_id key) (λ _. (k, All-by_id ls h.1))
        λ _. (h.0, All-insert ls key l h.1 k)
    where
      All-by_id :
          (ls : List (SemanticLocation F)) → All Known ls → All Known (map (λ e. e.1) (by_id ls))
      All-by_id [] h = tt
      All-by_id (x ∷ ls) h = (h.0, All-by_id ls h.1)

  -- What holds of a map that is about to be written.
  record IsWritable (store : SemanticLocationStore F) (m : SemanticLocationMap F) : Type 0 where
    map_id : m.map_id ≡ store.map_id
    known : All Known m.locations
    sorted : IsSorted by_location_id m.locations
    accepted : check_map m ≡ ok tt
    fits : ltb 262144 (rt.utf8_length (rt.json_dump (to_dict m))) ≡ false

  IsWritable-remembered :
      (store : SemanticLocationStore F) (location_id label : String) (pose : StationPose F)
      (expected : Option ℕ)
      → OkAnd (IsWritable store) (remembered store location_id label pose expected)
  unfolding remembered sort_locations
  IsWritable-remembered store location_id label pose expected =
      let Good = IsWritable store in
      OkAnd-then Good (identifier location_id "location_id") _ λ safe_id _.
        OkAnd-then Good (label_of rt.normalize_label label "label") _ λ safe_label _.
          OkAnd-then Good (check_pose "pose." pose.x pose.y pose.yaw) _ λ _ _.
            OkAnd-bind Good AllKnown (load store) _ (AllKnown-load store) λ snapshot all.
              OkAnd-then Good (check_revision expected snapshot) _ λ _ _.
                let location = new_location snapshot safe_id safe_label pose in
                let updated = with_location store snapshot location in
                OkAnd-then Good (check_location location) _ λ _ known.
                  OkAnd-then Good (check_map updated) _ λ _ checked.
                    OkAnd-test_then Good
                      (ltb 262144 (rt.utf8_length (rt.json_dump (to_dict updated)))) _ _
                      λ fits. record {
                        map_id = refl;
                        known =
                            All-sort_by by_location_id Known _
                              (All-insert snapshot.locations safe_id location all known);
                        sorted =
                            sort_by-IsSorted by_location_id
                              (λ a b. text_le_total a.location_id b.location_id) _;
                        accepted = checked;
                        fits = fits;
                      }

  load-written :
      (store : SemanticLocationStore F) (m : SemanticLocationMap F)
      → IsWritable store m
      → rt.json_loads (rt.json_dump (to_dict m)) ≡ some (document m)
      → load (record store { contents = some (some (rt.json_dump (to_dict m))) }) ≡ ok m
  unfolding load load_contents load_text decoded_of
  load-written store m h decodes =
      rw
        (
          h.fits,
          decodes,
          parse-document m h.known h.sorted h.accepted,
          (eq_iff m.map_id store.map_id).1 h.map_id,
        )
        refl

  -- How `remember` ends, by the map to write and the fault of the write.
  abbrev outcome :
      SemanticLocationStore F
      → Result (SemanticLocationMap F)
      → Option String
      → Result (SemanticLocationMap F) × SemanticLocationStore F
  outcome store r fault = elim r [
    | raised e ↦ (raised e, store)
    | ok updated ↦ elim fault [
      | some f ↦ (raised (os_error f), store)
      | none ↦
          (ok updated, record store { contents = some (some (rt.json_dump (to_dict updated))) })
    ]
  ]

  -- If decoding the text of a document gives the document, then a map that `remember` returns is the
  -- map that reading the store again gives: the document of this map, with sorted keys, is parsed to
  -- it, and the file is not too large and is of the store's map.
  pub load-remember :
      (store : SemanticLocationStore F) (location_id label : String) (pose : StationPose F)
      (expected : Option ℕ) (m : SemanticLocationMap F)
      → rt.json_loads (rt.json_dump (to_dict m)) ≡ some (document m)
      → (remember store location_id label pose expected).0 ≡ ok m
      → load (remember store location_id label pose expected).1 ≡ ok m
  unfolding remember write
  load-remember store location_id label pose expected m decodes =
      by_result (remembered store location_id label pose expected)
        (IsWritable-remembered store location_id label pose expected) store.write_fault
    where
      by_result :
          (r : Result (SemanticLocationMap F))
          → OkAnd (IsWritable store) r
          → (fault : Option String) → (outcome store r fault).0 ≡ ok m
          → load (outcome store r fault).1 ≡ ok m
      by_result (raised e) h fault same = cc
      by_result (ok updated) h (some f) same = cc
      by_result (ok updated) h none same =
          let is : updated ≡ m = cc in
          subst
            (λ (u : SemanticLocationMap F).
              IsWritable store u
              → load (record store { contents = some (some (rt.json_dump (to_dict u))) }) ≡ ok m)
            (sym is) (λ w. load-written store m w decodes) h
