-- ===== src/SemanticMap/RoundTrip.antt =====
-- semantic_map.py: the document of a map is parsed to this map.
use flyto_robotics.Prelude.{
  ◌≡◌, refl, sym, ap, ◌∙◌, ℕ, ◌+◌, ◌==◌, String, Bool, true, false, not, ◌&&◌, some, List, [], ◌∷◌,
  All, length, format, leb, ltb, arith, sort_by, insert_by, IsSorted, Leads,
}
use flyto_robotics.Prelude.Int.{pos}
use flyto_robotics.Python.{
  Value, integer, number, text, array, object, Items, nil, cons, end, entry, Runtime, Exception,
  Result, ok,
}
use flyto_robotics.Python.Mappings.{items_length}
use flyto_robotics.Python.Checks.{raise_if, ◌>>◌, OkAnd, OkAnd-then, OkAnd-test_then}
use flyto_robotics.Capabilities.{safe_text}
use flyto_robotics.SemanticMap.{
  SemanticLocation, SemanticLocationMap, identifier, label_items, without_repeats, check_location,
  check_map,
}
use flyto_robotics.SemanticMap.Document.{
  by_location_id, indexed, location_of, location_from, locations_from, map_of,
  parse_semantic_location_map, pose_of, bounded_items, identifier_from, revision_from,
}
use flyto_robotics.SemanticMap.Reading.{
  bind_ok, passed, OkAnd-at, OkAnd-always, IsSound, IsSound-check_location, labels_from-label_items,
  number_from_in, items_length-label_items,
}

module _ {A : Type 0} (le : A → A → Bool) where
  insert_by-first : (x : A) (xs : List A) → Leads le x xs → insert_by le x xs ≡ x ∷ xs
  unfolding insert_by
  insert_by-first x [] h = refl
  insert_by-first x (y ∷ ys) h = rw h refl

  pub sort_by-sorted : (xs : List A) → IsSorted le xs → sort_by le xs ≡ xs
  unfolding sort_by
  sort_by-sorted [] h = refl
  sort_by-sorted (x ∷ xs) h = rw (sort_by-sorted xs h.1) (insert_by-first x xs h.0)

module _ {F : Type 0} where
  -- The documents of `to_dict`, with sorted keys.
  abbrev pub location_document : SemanticLocation F → Value F
  location_document l = object (
      entry "labels" (array (label_items l.labels)) (
        entry "location_id" (text l.location_id) (
          entry "pose"
            (object (
              entry "x" (number l.pose.x)
                (entry "y" (number l.pose.y) (entry "yaw" (number l.pose.yaw) end))))
            end)))

  abbrev pub location_documents : List (SemanticLocation F) → Items F
  location_documents [] = nil
  location_documents (l ∷ ls) = cons (location_document l) (location_documents ls)

  abbrev pub document : SemanticLocationMap F → Value F
  document m = object (
      entry "contract_version" (text "flyto.robotics.semantic-location-map.v1") (
        entry "locations" (array (location_documents m.locations))
          (entry "map_id" (text m.map_id) (entry "revision" (integer (pos m.revision)) end))))

  items_length-location_documents :
      (ls : List (SemanticLocation F)) → items_length (location_documents ls) ≡ length ls
  items_length-location_documents [] = refl
  items_length-location_documents (l ∷ ls) = omega (arith, items_length-location_documents ls)

bounded_items_in :
    (F : Type 0) (least most : ℕ) (message : List String) (vs : Items F)
    → (leb least (items_length vs) && leb (items_length vs) most) ≡ true
    → bounded_items least most message (some (array vs)) ≡ ok vs
unfolding bounded_items
bounded_items_in F least most message vs h = rw h refl

tested :
    {A : Type 0} (b : Bool) (e : Exception) (k : Result A) (r : Result A)
    → b ≡ true
    → k ≡ r
    → (raise_if (not b) e >> k) ≡ r
tested true e k r h same = same
tested false e k r h same = cc

identifier_in :
    (F : Type 0) (value name : String)
    → safe_text value ≡ true
    → identifier_from {F = F} (some (text value)) name ≡ ok value
unfolding identifier_from
identifier_in F value name h = rw h refl

same_length : (n : ℕ) → (n == n) ≡ true
same_length n = ground arith

module _ {F : Type 0} ⦃rt : Runtime F⦄ where
  abbrev pub Known : SemanticLocation F → Type 0
  Known l = check_location l ≡ ok tt

  -- The location that the parser builds.
  abbrev rebuilt : List String → SemanticLocation F → SemanticLocation F
  rebuilt labels l = record {
    location_id = l.location_id;
    labels = without_repeats [] labels;
    pose = record { station_id = l.location_id; x = l.pose.x; y = l.pose.y; yaw = l.pose.yaw };
  }

  rebuilt_same : (l : SemanticLocation F) (s : IsSound l) → rebuilt s.labels l ≡ l
  rebuilt_same l s =
      ap (λ (ls : List String). record (rebuilt s.labels l) { labels = ls }) s.unchanged
      ∙ ap (λ (owner : String). record l { pose = record l.pose { station_id = owner } })
          (sym s.owned)

  location_from-location_document :
      (index : ℕ) (l : SemanticLocation F)
      → Known l
      → location_from index (location_document l) ≡ ok l
  unfolding location_from location_of pose_of
  location_from-location_document index l known =
      let s : IsSound l =
        OkAnd-at (λ _. IsSound l) (check_location l) tt (IsSound-check_location l) known in
      let many = items_length-label_items F l.labels in
      let same = rebuilt_same l s in
      let distinct_labels : (length (without_repeats [] s.labels)
            == items_length (label_items {F = F} l.labels))
          ≡ true =
        rw (s.unchanged, many) (same_length (length l.labels)) in
      let read =
        OkAnd-at _ _ s.labels
          (labels_from-label_items F
            (format (indexed F "semantic_map.locations" index ∷ ".labels" ∷ [])) 0 l.labels)
          s.read in
      let again : check_location (rebuilt s.labels l) ≡ ok tt = ap check_location same ∙ known in
      bind_ok _ _ (label_items l.labels) _ (bounded_items_in F 1 32 _ _ (rw many s.count)) (
        bind_ok _ _ s.labels _ read (
          tested _ _ _ _ distinct_labels (
            bind_ok _ _ l.location_id _ (identifier_in F l.location_id _ s.named) (
              bind_ok _ _ l.pose.x _ (number_from_in l.pose.x _ _ _ s.x_in) (
                bind_ok _ _ l.pose.y _ (number_from_in l.pose.y _ _ _ s.y_in) (
                  bind_ok _ _ l.pose.yaw _ (number_from_in l.pose.yaw _ _ _ s.yaw_in)
                    (bind_ok _ _ tt _ again (ap ok same))))))))

  locations_from-location_documents :
      (index : ℕ) (ls : List (SemanticLocation F))
      → All Known ls
      → locations_from index (location_documents ls) ≡ ok ls
  unfolding locations_from
  locations_from-location_documents index [] h = refl
  locations_from-location_documents index (l ∷ ls) h =
      bind_ok _ _ l _ (location_from-location_document index l h.0)
        (bind_ok _ _ ls _ (locations_from-location_documents (index + 1) ls h.1) refl)

  -- What the constructor of a map has checked of its id and of the number of its locations.
  limits_of_map :
      (m : SemanticLocationMap F)
      → OkAnd
          (λ _. (safe_text m.map_id ≡ true) × (leb (length m.locations) 2048 ≡ true))
          (check_map m)
  unfolding check_map
  limits_of_map m =
      let Good : Unit {0} → Type 0 =
        λ _. (safe_text m.map_id ≡ true) × (leb (length m.locations) 2048 ≡ true) in
      OkAnd-then Good (identifier m.map_id "semantic_map.map_id") _ λ id e.
        OkAnd-test_then Good (ltb 2048 (length m.locations)) _ _
          λ few. OkAnd-always Good _ λ u. (passed _ _ _ _ e, ground (arith, few))

  -- The document of a map that keeps the rules of its constructors is parsed to this map.
  pub parse-document :
      (m : SemanticLocationMap F)
      → All Known m.locations
      → IsSorted by_location_id m.locations
      → check_map m ≡ ok tt
      → parse_semantic_location_map (document m) ≡ ok m
  unfolding parse_semantic_location_map map_of revision_from
  parse-document m known sorted checked =
      let (safe, few) = OkAnd-at _ (check_map m) tt (limits_of_map m) checked in
      let many = items_length-location_documents m.locations in
      let same : record m { locations = sort_by by_location_id m.locations } ≡ m =
        ap (λ (ls : List (SemanticLocation F)). record m { locations = ls })
          (sort_by-sorted by_location_id m.locations sorted) in
      bind_ok _ _ (location_documents m.locations) _
        (bounded_items_in F 0 2048 _ _ (ground (arith, many, few)))
        (bind_ok _ _ m.locations _ (locations_from-location_documents 0 m.locations known) (
          bind_ok _ _ m.map_id _ (identifier_in F m.map_id _ safe)
            (bind_ok _ _ tt _ (ap check_map same ∙ checked) (ap ok same))))
