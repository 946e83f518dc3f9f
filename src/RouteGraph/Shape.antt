-- ===== src/RouteGraph/Shape.antt =====
-- route_graph.py: what a well-formed route graph is, and what the parsers of its parts ensure.
use flyto_robotics.Prelude.{
  ◌≡◌, refl, ◌⊎◌, ℕ, ◌≤◌, String, true, false, ◌&&◌, Option, none, some, List, [], ◌∷◌, length,
  contains, All, if_split, arith, leb,
}
use flyto_robotics.Prelude.Int.{ℤ, pos, negsuc, leb_ℤ}
use flyto_robotics.Python.{
  Value, null, flag, integer, number, text, array, object, Items, nil, cons, Runtime,
}
use flyto_robotics.Python.Mappings.{items_length}
use flyto_robotics.Python.Checks.{OkAnd, OkAnd-bind}
use flyto_robotics.Workflow.{distinct}
use flyto_robotics.DependencyPolicy.{observer_default}
use flyto_robotics.DependencyPolicy.Validity.{IsContract}
use flyto_robotics.RouteGraph.{
  is_identifier, identifier_text, RouteDependency, RouteOption, RouteGraph,
}
use flyto_robotics.RouteGraph.Parsing.{identifier_of, identifiers_of, revision_of, bounded_list}

-- The length of a list is between two bounds.
abbrev pub Between {ℓ} : {A : Type ℓ} → ℕ → ℕ → List A → Type 0
Between least most xs = (least ≤ length xs) × (length xs ≤ most)

abbrev pub IsIdentifier : String → Type 0
IsIdentifier s = is_identifier s ≡ true

module _ {F : Type 0} ⦃rt : Runtime F⦄ where
  pub record IsDependency (d : RouteDependency F) : Type 0 where
    pub resource : IsIdentifier d.resource_id
    pub contract : IsContract d.contract ⊎ (d.contract ≡ observer_default)

  pub record IsRoute (r : RouteOption F) : Type 0 where
    pub id : IsIdentifier r.route_id
    pub locations : All IsIdentifier r.location_ids
    pub location_count : Between 2 64 r.location_ids
    pub no_repeat : distinct r.location_ids ≡ true
    pub codes : All IsIdentifier r.reason_codes
    pub code_count : length r.reason_codes ≤ 32
    pub dependencies : All IsDependency r.dependencies
    pub dependency_count : length r.dependencies ≤ 32
    pub score : rt.is_finite r.base_score ≡ true
    pub score_bounds :
        (rt.le (rt.of_integer (negsuc 999999)) r.base_score
          && rt.le r.base_score (rt.of_integer (pos 1000000)))
        ≡ true

-- Each route's id is new: it is none of those seen, nor that of a route before it.
abbrev pub NewIds : {F : Type 0} → List String → List (RouteOption F) → Type 0
NewIds seen [] = Unit
NewIds seen (r ∷ rs) = (contains r.route_id seen ≡ false) × NewIds (r.route_id ∷ seen) rs

module _ {F : Type 0} ⦃rt : Runtime F⦄ where
  pub record IsGraph (g : RouteGraph F) : Type 0 where
    pub id : IsIdentifier g.graph_id
    pub revision : (leb_ℤ (pos 1) g.revision && leb_ℤ g.revision (pos 1000000)) ≡ true
    pub routes : All IsRoute g.routes
    pub route_count : Between 2 64 g.routes
    pub new_ids : NewIds [] g.routes

abbrev pub InRevision : ℤ → Type 0
InRevision z = (leb_ℤ (pos 1) z && leb_ℤ z (pos 1000000)) ≡ true

IsIdentifier-identifier_text : (s name : String) → OkAnd IsIdentifier (identifier_text s name)
unfolding identifier_text
IsIdentifier-identifier_text s name =
    if_split (OkAnd IsIdentifier) (is_identifier s) (λ h. h) λ h. tt

module _ {F : Type 0} where
  pub IsIdentifier-identifier_of :
      (v : Option (Value F)) (name : String) → OkAnd IsIdentifier (identifier_of v name)
  unfolding identifier_of
  IsIdentifier-identifier_of none name = tt
  IsIdentifier-identifier_of (some (text s)) name = IsIdentifier-identifier_text s name
  IsIdentifier-identifier_of (some null) name = tt
  IsIdentifier-identifier_of (some (flag b)) name = tt
  IsIdentifier-identifier_of (some (integer z)) name = tt
  IsIdentifier-identifier_of (some (number x)) name = tt
  IsIdentifier-identifier_of (some (array vs)) name = tt
  IsIdentifier-identifier_of (some (object raw)) name = tt

  -- As many identifiers as items.
  abbrev pub Named : Items F → List String → Type 0
  Named vs is = All IsIdentifier is × (length is ≡ items_length vs)

  pub Named-identifiers_of :
      (vs : Items F) (name : String) → OkAnd (Named vs) (identifiers_of vs name)
  unfolding identifiers_of
  Named-identifiers_of nil name = (tt, refl)
  Named-identifiers_of (cons v vs) name =
      OkAnd-bind (Named (cons v vs)) IsIdentifier (identifier_of (some v) name) _
        (IsIdentifier-identifier_of (some v) name)
        λ i one.
          OkAnd-bind (Named (cons v vs)) (Named vs) (identifiers_of vs name) _
            (Named-identifiers_of vs name) λ is (all, count). ((one, all), omega (arith, count))

  abbrev pub Counted : ℕ → ℕ → Items F → Type 0
  Counted least most vs = (least ≤ items_length vs) × (items_length vs ≤ most)

  pub Counted-bounded_list :
      (least most : ℕ) (message : List String) (v : Option (Value F))
      → OkAnd (Counted least most) (bounded_list least most message v)
  unfolding bounded_list
  Counted-bounded_list least most message none = tt
  Counted-bounded_list least most message (some (array vs)) =
      if_split (OkAnd (Counted least most))
        (leb least (items_length vs) && leb (items_length vs) most)
        (λ h. (ground arith, ground arith)) λ h. tt
  Counted-bounded_list least most message (some (text s)) = tt
  Counted-bounded_list least most message (some null) = tt
  Counted-bounded_list least most message (some (flag b)) = tt
  Counted-bounded_list least most message (some (integer z)) = tt
  Counted-bounded_list least most message (some (number x)) = tt
  Counted-bounded_list least most message (some (object raw)) = tt

  pub InRevision-revision_of : (v : Option (Value F)) → OkAnd InRevision (revision_of v)
  unfolding revision_of
  InRevision-revision_of none = tt
  InRevision-revision_of (some (integer z)) =
      if_split (OkAnd InRevision) (leb_ℤ (pos 1) z && leb_ℤ z (pos 1000000)) (λ h. h) λ h. tt
  InRevision-revision_of (some (array vs)) = tt
  InRevision-revision_of (some (text s)) = tt
  InRevision-revision_of (some null) = tt
  InRevision-revision_of (some (flag b)) = tt
  InRevision-revision_of (some (number x)) = tt
  InRevision-revision_of (some (object raw)) = tt
