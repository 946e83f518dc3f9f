-- ===== src/PathClearance/Loops.antt =====
-- path_clearance.py: the loops over the beams find a return below a threshold exactly if there is one.
use flyto_robotics.Prelude.{
  ◌≡◌, refl, ◌∙◌, Bool, true, false, ◌&&◌, ◌||◌, Option, none, some, List, [], ◌∷◌, if_split,
  if_ind, if◌then◌else◌, arith, Bool-cases, inl, inr,
}
use flyto_robotics.Python.{Runtime, Result, ok, raised}
use flyto_robotics.Python.Checks.{◌>>=◌}
use flyto_robotics.PathClearance.{
  Beam, in_corridor, closer, corridor_step, corridor_from, lower_pair, nearest_step, nearest_from,
}
use flyto_robotics.PathClearance.Returns.{
  under, blocks_at, blocks, below_at, any_below, Finite, FiniteBest, FiniteBeams,
}

or_assoc : (a b c d : Bool) → a ≡ (b || c) → (a || d) ≡ (b || (c || d))
or_assoc a true c d h = ground arith
or_assoc a false c d h = ground arith

-- Laws of the floats' order: below is transitive, a finite number that a number below a bound is not
-- below lies below that bound too, and equal numbers are below the same ones.
module _ {F : Type 0} ⦃rt : Runtime F⦄
    (transitive : (x y z : F) → rt.lt x y ≡ true → rt.lt y z ≡ true → rt.lt x z ≡ true)
    (between : (x y z : F)
      → rt.is_finite y ≡ true
      → rt.lt x z ≡ true
      → rt.lt x y ≡ false
      → rt.lt y z ≡ true)
    (same : (x y z : F) → rt.eq x y ≡ true → rt.lt x z ≡ rt.lt y z) (threshold : F) where
  under_new :
      (x y : F) → rt.lt x y ≡ true → rt.lt x threshold ≡ (rt.lt y threshold || rt.lt x threshold)
  under_new x y h = elim (Bool-cases (rt.lt y threshold)) [
    | inl e ↦ let f = transitive x y threshold h e in ground arith
    | inr e ↦ ground arith
  ]

  under_old :
      (x y : F)
      → rt.is_finite y ≡ true
      → rt.lt x y ≡ false
      → rt.lt y threshold ≡ (rt.lt y threshold || rt.lt x threshold)
  under_old x y fin h = elim (Bool-cases (rt.lt x threshold)) [
    | inl e ↦ let f = between x y threshold fin e h in ground arith
    | inr e ↦ ground arith
  ]

  under-closer :
      (best : Option (F × F)) (range bearing : F)
      → FiniteBest best
      → under threshold (closer best range bearing)
        ≡ (under threshold best || rt.lt range threshold)
  under-closer none range bearing fin = refl
  under-closer (some best) range bearing fin =
      if_split (λ o. under threshold o ≡ (rt.lt best.0 threshold || rt.lt range threshold))
        (rt.lt range best.0) (λ h. under_new range best.0 h) λ h. under_old range best.0 fin h

  FiniteBest-closer :
      (best : Option (F × F)) (range bearing : F)
      → FiniteBest best
      → rt.is_finite range ≡ true
      → FiniteBest (closer best range bearing)
  FiniteBest-closer none range bearing fin h = h
  FiniteBest-closer (some best) range bearing fin h = if_ind FiniteBest (rt.lt range best.0) h fin

  under-lower_pair :
      (best : Option (F × F)) (p : F × F)
      → FiniteBest best
      → under threshold (lower_pair best p) ≡ (under threshold best || rt.lt p.0 threshold)
  under-lower_pair none p fin = refl
  under-lower_pair (some best) p fin =
      let Goal : Option (F × F) → Type 0 =
        λ o. under threshold o ≡ (rt.lt best.0 threshold || rt.lt p.0 threshold) in
      if_split Goal (if rt.eq p.0 best.0 then rt.lt p.1 best.1 else rt.lt p.0 best.0)
        (λ h. elim (Bool-cases (rt.eq p.0 best.0)) [
          | inl e ↦ let s = same p.0 best.0 threshold e in ground arith
          | inr e ↦ under_new p.0 best.0 (ground arith)
        ])
        λ h. elim (Bool-cases (rt.eq p.0 best.0)) [
          | inl e ↦ let s = same p.0 best.0 threshold e in ground arith
          | inr e ↦ under_old p.0 best.0 fin (ground arith)
        ]

  FiniteBest-lower_pair :
      (best : Option (F × F)) (p : F × F)
      → FiniteBest best
      → rt.is_finite p.0 ≡ true
      → FiniteBest (lower_pair best p)
  FiniteBest-lower_pair none p fin h = h
  FiniteBest-lower_pair (some best) p fin h =
      if_ind FiniteBest (if rt.eq p.0 best.0 then rt.lt p.1 best.1 else rt.lt p.0 best.0) h fin

  under-nearest_step :
      (best : Option (F × F)) (range : Option F) (bearing : F)
      → FiniteBest best
      → under threshold (nearest_step best range bearing)
        ≡ (under threshold best || below_at threshold range)
  under-nearest_step best none bearing fin = ground arith
  under-nearest_step best (some range) bearing fin = under-lower_pair best (range, bearing) fin

  FiniteBest-nearest_step :
      (best : Option (F × F)) (range : Option F) (bearing : F)
      → FiniteBest best
      → Finite range
      → FiniteBest (nearest_step best range bearing)
  FiniteBest-nearest_step best none bearing fin h = fin
  FiniteBest-nearest_step best (some range) bearing fin h =
      FiniteBest-lower_pair best (range, bearing) fin h

  pub nearest_from_lem :
      (best : Option (F × F)) (beams : List (Beam F))
      → FiniteBest best
      → FiniteBeams beams
      → under threshold (nearest_from best beams)
        ≡ (under threshold best || any_below threshold beams)
  unfolding nearest_from
  nearest_from_lem best [] fin h = ground arith
  nearest_from_lem best (beam ∷ beams) fin h =
      let e =
        nearest_from_lem (nearest_step best beam.range_m beam.bearing) beams
          (FiniteBest-nearest_step best beam.range_m beam.bearing fin h.0) h.1 in
      let f = under-nearest_step best beam.range_m beam.bearing fin in
      e
      ∙ or_assoc _ (under threshold best) (below_at threshold beam.range_m)
          (any_below threshold beams) f

  -- The loop and the search of a near return raise together, or agree on what is below the threshold.
  abbrev pub Agree : Option (F × F) → Result (Option (F × F)) → Result Bool → Type 0
  Agree best (ok after) (ok b) =
      FiniteBest after × (under threshold after ≡ (under threshold best || b))
  Agree best (raised e) (raised f) = e ≡ f
  Agree best (ok after) (raised f) = ⊥
  Agree best (raised e) (ok b) = ⊥

  Agree-inside :
      (best : Option (F × F)) (range bearing : F) (r : Result Bool)
      → FiniteBest best
      → rt.is_finite range ≡ true
      → Agree best
          (r >>= λ inside. ok (if inside then closer best range bearing else best))
          (r >>= λ inside. ok (inside && rt.lt range threshold))
  Agree-inside best range bearing (ok true) fin h =
      (FiniteBest-closer best range bearing fin h, under-closer best range bearing fin)
  Agree-inside best range bearing (ok false) fin h = (fin, ground arith)
  Agree-inside best range bearing (raised e) fin h = refl

  Agree-corridor_step :
      (direction half_width : F) (best : Option (F × F)) (range : Option F) (bearing : F)
      → FiniteBest best
      → Finite range
      → Agree best
          (corridor_step direction half_width best range bearing)
          (blocks_at direction half_width threshold range bearing)
  unfolding corridor_step
  Agree-corridor_step direction half_width best none bearing fin h = (fin, ground arith)
  Agree-corridor_step direction half_width best (some range) bearing fin h =
      Agree-inside best range bearing (in_corridor direction half_width range bearing) fin h

  Agree-rest :
      (best after : Option (F × F)) (b : Bool) (r : Result (Option (F × F))) (q : Result Bool)
      → under threshold after ≡ (under threshold best || b)
      → Agree after r q
      → Agree best r (q >>= λ rest. ok (b || rest))
  Agree-rest best after b (ok found) (ok rest) e (fin, f) =
      (fin, f ∙ or_assoc _ (under threshold best) b rest e)
  Agree-rest best after b (raised x) (raised y) e h = h
  Agree-rest best after b (ok found) (raised y) e h = h
  Agree-rest best after b (raised x) (ok rest) e h = h

  Agree-behind :
      (direction half_width : F) (best : Option (F × F)) (beams : List (Beam F))
      (r : Result (Option (F × F))) (q : Result Bool)
      → Agree best r q
      → ((after : Option (F × F))
          → FiniteBest after
          → Agree after
              (corridor_from direction half_width after beams)
              (blocks direction half_width threshold beams))
      → Agree best (r >>= λ after. corridor_from direction half_width after beams) (
          q >>= λ here. (blocks direction half_width threshold beams >>= λ rest. ok (here || rest)))
  Agree-behind direction half_width best beams (ok after) (ok b) (fin, e) k =
      Agree-rest best after b _ _ e (k after fin)
  Agree-behind direction half_width best beams (raised x) (raised y) h k = h
  Agree-behind direction half_width best beams (ok after) (raised y) h k = absurd h
  Agree-behind direction half_width best beams (raised x) (ok b) h k = absurd h

  pub Agree-corridor_from :
      (direction half_width : F) (best : Option (F × F)) (beams : List (Beam F))
      → FiniteBest best
      → FiniteBeams beams
      → Agree best
          (corridor_from direction half_width best beams)
          (blocks direction half_width threshold beams)
  unfolding corridor_from blocks
  Agree-corridor_from direction half_width best [] fin h = (fin, ground arith)
  Agree-corridor_from direction half_width best (beam ∷ beams) fin h =
      Agree-behind direction half_width best beams _ _
        (Agree-corridor_step direction half_width best beam.range_m beam.bearing fin h.0)
        λ after found. Agree-corridor_from direction half_width after beams found h.1
