-- ===== src/SemanticMap/Reading.antt =====
-- semantic_map.py: parsing the document of a location gives the location.
use flyto_robotics.Prelude.{
  ◌≡◌, refl, sym, ℕ, ◌+◌, String, Bool, true, false, not, ◌&&◌, Option, none, some, List, [], ◌∷◌,
  length, leb, str_eq, eq_iff, if◌then◌else◌, arith,
}
use flyto_robotics.Python.{number, Runtime, Exception, Result, ok, raised}
use flyto_robotics.Python.Mappings.{items_length}
use flyto_robotics.Python.Checks.{OkAnd, OkAnd-bind, OkAnd-then, OkAnd-test_then, ◌>>=◌}
use flyto_robotics.Capabilities.{safe_text}
use flyto_robotics.SemanticMap.{
  SemanticLocation, identifier, label_items, label_of, labels_of, same_labels, number_between,
  without_repeats, check_location, check_pose,
}
use flyto_robotics.SemanticMap.Document.{number_from, kilometer, labels_from}

pub bind_ok :
    {A B : Type 0} (m : Result A) (f : A → Result B) (a : A) (b : Result B)
    → m ≡ ok a
    → f a ≡ b
    → (m >>= f) ≡ b
bind_ok (ok x) f a b e h = let same : x ≡ a = cc in rw same h
bind_ok (raised x) f a b e h = cc

-- A test that a computed value passed.
pub passed :
    {A : Type 0} (b : Bool) (a x : A) (e : Exception)
    → (if b then ok a else raised e) ≡ ok x
    → b ≡ true
passed true a x e h = refl
passed false a x e h = cc

pub OkAnd-at : {A : Type 0} (P : A → Type 0) (r : Result A) (a : A) → OkAnd P r → r ≡ ok a → P a
OkAnd-at P (ok x) a h e = let same : x ≡ a = cc in rw (sym same) h
OkAnd-at P (raised x) a h e = cc

pub OkAnd-always : {A : Type 0} (P : A → Type 0) (r : Result A) → ((a : A) → P a) → OkAnd P r
OkAnd-always P (ok a) h = h a
OkAnd-always P (raised e) h = tt

same_labels_eq : (xs ys : List String) → same_labels xs ys ≡ true → xs ≡ ys
same_labels_eq [] [] h = refl
same_labels_eq [] (y ∷ ys) h = cc
same_labels_eq (x ∷ xs) [] h = cc
same_labels_eq (x ∷ xs) (y ∷ ys) h =
    let heads : str_eq x y ≡ true = ground arith in
    let tails : same_labels xs ys ≡ true = ground arith in
    let first : x ≡ y = (eq_iff x y).0 heads in
    let rest = same_labels_eq xs ys tails in rw (first, rest) refl

pub items_length-label_items :
    (F : Type 0) (ls : List String) → items_length (label_items {F = F} ls) ≡ length ls
unfolding label_items
items_length-label_items F [] = refl
items_length-label_items F (l ∷ ls) = omega (arith, items_length-label_items F ls)

text_or :
    (o : Option String) (e e' : Exception) (label : String)
    → (elim o [ none ↦ raised e | some normalized ↦ ok normalized ]) ≡ ok label
    → (elim o [ none ↦ raised e' | some normalized ↦ ok normalized ]) ≡ ok label
text_or none e e' label h = cc
text_or (some t) e e' label h = h

-- The name of a field stands only in the error.
label_renamed :
    (normalize : String → Option String) (value a b label : String)
    → label_of normalize value a ≡ ok label
    → label_of normalize value b ≡ ok label
unfolding label_of
label_renamed normalize value a b label h = text_or (normalize value) _ _ label h

module _ (F : Type 0) ⦃rt : Runtime F⦄ where
  pub labels_from-label_items :
      (name : String) (index : ℕ) (ls : List String)
      → OkAnd
          (λ xs. labels_from {F = F} name index (label_items ls) ≡ ok xs)
          (labels_of rt.normalize_label ls)
  unfolding labels_from label_items labels_of
  labels_from-label_items name index [] = refl
  labels_from-label_items name index (l ∷ ls) =
      let Good : List String → Type 0 =
        λ xs. labels_from {F = F} name index (label_items (l ∷ ls)) ≡ ok xs in
      OkAnd-then Good (label_of rt.normalize_label l "semantic_location.labels") _ λ label e.
        OkAnd-bind Good (λ xs. labels_from {F = F} name (index + 1) (label_items ls) ≡ ok xs)
          (labels_of rt.normalize_label ls) _ (labels_from-label_items name (index + 1) ls)
          λ rest e2.
            bind_ok _ _ label _
              (label_renamed rt.normalize_label l "semantic_location.labels" _ label e)
              (bind_ok _ _ rest _ e2 refl)

module _ {F : Type 0} ⦃rt : Runtime F⦄ where
  abbrev pub InRange : F → F → F → Type 0
  InRange x minimum maximum = (rt.is_finite x && (rt.le minimum x && rt.le x maximum)) ≡ true

  pub number_from_in :
      (x minimum maximum : F) (name : String)
      → InRange x minimum maximum
      → number_from (some (number x)) name minimum maximum ≡ ok x
  unfolding number_from number_between
  number_from_in x minimum maximum name h = rw h refl

  -- What the constructor of a location has checked.
  pub record IsSound (l : SemanticLocation F) : Type 0 where
    pub named : safe_text l.location_id ≡ true
    pub count : (leb 1 (length l.labels) && leb (length l.labels) 32) ≡ true
    pub labels : List String
    pub read : labels_of rt.normalize_label l.labels ≡ ok labels
    pub unchanged : without_repeats [] labels ≡ l.labels
    pub owned : l.pose.station_id ≡ l.location_id
    pub x_in : InRange l.pose.x (rt.neg kilometer) kilometer
    pub y_in : InRange l.pose.y (rt.neg kilometer) kilometer
    pub yaw_in : InRange l.pose.yaw (rt.neg rt.pi) rt.pi

  pub IsSound-check_location : (l : SemanticLocation F) → OkAnd (λ _. IsSound l) (check_location l)
  unfolding check_location check_pose number_between
  IsSound-check_location l =
      let Good : Unit {0} → Type 0 = λ _. IsSound l in
      OkAnd-then Good (identifier l.location_id "semantic_location.location_id") _ λ safe_id e1.
        OkAnd-test_then Good (not (leb 1 (length l.labels) && leb (length l.labels) 32)) _ _
          λ counted. OkAnd-then Good (labels_of rt.normalize_label l.labels) _ λ labels e2.
            OkAnd-test_then Good (not (same_labels (without_repeats [] labels) l.labels)) _ _
              λ same.
                OkAnd-test_then Good (not (str_eq l.pose.station_id l.location_id)) _ _ λ owned.
                  OkAnd-then Good
                    (number_between l.pose.x _ (rt.neg (rt.decimal 10000 1)) (rt.decimal 10000 1)) _
                    λ x e3.
                      OkAnd-then Good
                        (number_between l.pose.y _ (rt.neg (rt.decimal 10000 1))
                          (rt.decimal 10000 1))
                        _
                        λ y e4.
                          OkAnd-then Good (number_between l.pose.yaw _ (rt.neg rt.pi) rt.pi)
                            (λ _. ok tt)
                            λ yaw e5. record {
                              named = passed _ _ _ _ e1;
                              count = ground (arith, counted);
                              labels = labels;
                              read = e2;
                              unchanged =
                                  same_labels_eq (without_repeats [] labels) l.labels
                                    (ground (arith, same));
                              owned =
                                  (eq_iff l.pose.station_id l.location_id).0
                                    (ground (arith, owned));
                              x_in = passed _ _ _ _ e3;
                              y_in = passed _ _ _ _ e4;
                              yaw_in = passed _ _ _ _ e5;
                            }
