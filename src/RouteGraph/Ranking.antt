-- ===== src/RouteGraph/Ranking.antt =====
-- route_graph.py: the order of the candidates.
use flyto_robotics.Prelude.{
  ◌≡◌, refl, sym, ℕ, zero, suc, String, Bool, true, false, not, List, [], ◌∷◌, take, arith, text_le,
  text_le_total, Leads, IsSorted, sort_by-IsSorted, if◌then◌else◌,
}
use flyto_robotics.Prelude.Int.{ℤ, pos_part}
use flyto_robotics.Python.{Fields, Runtime}
use flyto_robotics.Python.Checks.{OkAnd, OkAnd-then}
use flyto_robotics.RouteGraph.{
  RouteGraph, RouteItem, RouteEvaluation, candidates_of, excluded_of, identifier_text,
}
use flyto_robotics.RouteGraph.Evaluation.{evaluate_routes, ranks, selected, result_of, evaluate}

module _ {A : Type 0} (le : A → A → Bool) where
  Leads-take : (n : ℕ) (x : A) (xs : List A) → Leads le x xs → Leads le x (take n xs)
  Leads-take zero x xs h = tt
  Leads-take (suc n) x [] h = tt
  Leads-take (suc n) x (y ∷ ys) h = h

  IsSorted-take : (n : ℕ) (xs : List A) → IsSorted le xs → IsSorted le (take n xs)
  IsSorted-take zero xs h = tt
  IsSorted-take (suc n) [] h = tt
  IsSorted-take (suc n) (x ∷ xs) h = (Leads-take n x xs h.0, IsSorted-take n xs h.1)

module _ {F : Type 0} ⦃rt : Runtime F⦄ where
  -- What it takes for the first item to stand before the second: its score is not the lower one, and
  -- where the scores are equal its route's id is not behind the other's.
  abbrev pub Precedes : RouteItem F → RouteItem F → Type 0
  Precedes a b =
      (rt.lt a.score b.score ≡ false)
      × (rt.eq a.score b.score ≡ true → text_le a.route_id b.route_id ≡ true)

  -- Each item precedes the next.
  abbrev pub Descends : List (RouteItem F) → Type 0
  Descends [] = Unit
  Descends (a ∷ []) = Unit
  Descends (a ∷ b ∷ items) = Precedes a b × Descends (b ∷ items)

  abbrev pub IsRanked : RouteEvaluation F → Type 0
  IsRanked ev =
      Descends ev.candidates
      × IsSorted (λ (a b : RouteItem F). text_le a.route_id b.route_id) ev.excluded

-- A comparison by a first key, and by a second one where the first are equal.
by_keys :
    (e f p q l m : Bool)
    → e ≡ f
    → (p ≡ false → q ≡ true)
    → (l ≡ true → m ≡ false)
    → (if e then p else not l) ≡ false
    → (if f then q else not m) ≡ true
by_keys true true p q l m same second first h = second h
by_keys false false p q l m same second first h = let e = first (ground arith) in rw e refl
by_keys true false p q l m same second first h = cc
by_keys false true p q l m same second first h = cc

-- The comparison by the negated scores, read on the scores.
precedes :
    (e f l m t : Bool)
    → e ≡ f
    → l ≡ m
    → (f ≡ true → m ≡ false)
    → (if e then t else not l) ≡ true
    → (m ≡ false) × (f ≡ true → t ≡ true)
precedes true f l m t same turned apart h = (apart (sym same), λ _. h)
precedes false f l m t same turned apart h = (ground arith, λ k. cc)

module _ {F : Type 0} ⦃rt : Runtime F⦄ (symmetric : (x y : F) → rt.eq x y ≡ rt.eq y x)
    (asymmetric : (x y : F) → rt.lt x y ≡ true → rt.lt y x ≡ false)
    (apart : (x y : F) → rt.eq x y ≡ true → rt.lt x y ≡ false)
    (eq-neg : (x y : F) → rt.eq (rt.neg x) (rt.neg y) ≡ rt.eq x y)
    (lt-neg : (x y : F) → rt.lt (rt.neg x) (rt.neg y) ≡ rt.lt y x) where
  ranks_total : (a b : RouteItem F) → ranks a b ≡ false → ranks b a ≡ true
  ranks_total a b =
      by_keys (rt.eq (rt.neg a.score) (rt.neg b.score)) (rt.eq (rt.neg b.score) (rt.neg a.score)) _
        _ (rt.lt (rt.neg b.score) (rt.neg a.score)) (rt.lt (rt.neg a.score) (rt.neg b.score))
        (symmetric (rt.neg a.score) (rt.neg b.score)) (text_le_total a.route_id b.route_id)
        (asymmetric (rt.neg b.score) (rt.neg a.score))

  Precedes-ranks : (a b : RouteItem F) → ranks a b ≡ true → Precedes a b
  Precedes-ranks a b =
      precedes (rt.eq (rt.neg a.score) (rt.neg b.score)) (rt.eq a.score b.score)
        (rt.lt (rt.neg b.score) (rt.neg a.score)) (rt.lt a.score b.score)
        (text_le a.route_id b.route_id) (eq-neg a.score b.score) (lt-neg b.score a.score)
        (apart a.score b.score)

  Descends-IsSorted : (items : List (RouteItem F)) → IsSorted ranks items → Descends items
  Descends-IsSorted [] h = tt
  Descends-IsSorted (a ∷ []) h = tt
  Descends-IsSorted (a ∷ b ∷ items) h = (Precedes-ranks a b h.0, Descends-IsSorted (b ∷ items) h.1)

  IsRanked-result_of :
      (graph : RouteGraph F) (phase : String) (chosen excluded : List (RouteItem F))
      → IsSorted ranks chosen
      → IsSorted (λ (a b : RouteItem F). text_le a.route_id b.route_id) excluded
      → OkAnd IsRanked (result_of graph phase chosen excluded)
  IsRanked-result_of graph phase [] excluded h k = tt
  IsRanked-result_of graph phase (item ∷ more) excluded h k = (Descends-IsSorted (item ∷ more) h, k)

  -- If the floats' equality is symmetric, their order asymmetric and apart from equality, and if
  -- negation keeps equality and turns the order, then no candidate of an evaluation has a lower score
  -- than the next, of two in turn with equal scores the route's ids are in order, and the excluded
  -- routes stand by their id.
  pub IsRanked-evaluate :
      (graph : RouteGraph F) (observations : Fields F) (phase : String) (limit : ℤ)
      → OkAnd IsRanked (evaluate graph observations phase limit)
  unfolding evaluate
  IsRanked-evaluate graph observations phase limit = OkAnd-then IsRanked _ _ λ in_range _.
      OkAnd-then IsRanked (identifier_text phase "phase") _ λ active _.
        OkAnd-then IsRanked (evaluate_routes observations active graph.routes) _ λ items _.
          IsRanked-result_of graph active (selected items limit) _
            (IsSorted-take ranks (pos_part limit) _
              (sort_by-IsSorted ranks ranks_total (candidates_of items)))
            (sort_by-IsSorted (λ (a b : RouteItem F). text_le a.route_id b.route_id)
              (λ a b. text_le_total a.route_id b.route_id) (excluded_of items))
