-- ===== src/PathClearance/Returns.antt =====
-- path_clearance.py: what admits a motion, stated of all returns at once; and the ranges of a sweep.
use flyto_robotics.Prelude.{
  ◌≡◌, ℕ, ◌+◌, Bool, true, false, not, ◌&&◌, ◌||◌, Option, none, some, List, [], ◌∷◌, All, if_split,
  arith,
}
use flyto_robotics.Python.{
  Value, null, flag, integer, number, text, array, object, Items, nil, cons, Runtime, zero_float,
  Result, ok,
}
use flyto_robotics.Python.Checks.{◌>>=◌, OkAnd, OkAnd-then, OkAnd-bind}
use flyto_robotics.PathClearance.{
  Beam, Shape, corridor, footprint, planned, SweptPath, range_of, beams_from, remainder_tau, swept,
  sweep_beams, in_corridor,
}

module _ {F : Type 0} ⦃rt : Runtime F⦄ where
  -- The nearest return so far is below the threshold.
  abbrev pub under : F → Option (F × F) → Bool
  under threshold none = false
  under threshold (some best) = rt.lt best.0 threshold

  abbrev pub blocks_at : F → F → F → Option F → F → Result Bool
  blocks_at direction half_width threshold none bearing = ok false
  blocks_at direction half_width threshold (some range) bearing =
      in_corridor direction half_width range bearing >>= λ inside.
      ok (inside && rt.lt range threshold)

  -- Some return in the corridor is nearer than the threshold.
  unfoldable pub blocks : F → F → F → List (Beam F) → Result Bool
  blocks direction half_width threshold [] = ok false
  blocks direction half_width threshold (beam ∷ beams) =
      blocks_at direction half_width threshold beam.range_m beam.bearing >>= λ here.
      (blocks direction half_width threshold beams >>= λ rest. ok (here || rest))

  abbrev pub below_at : F → Option F → Bool
  below_at threshold none = false
  below_at threshold (some range) = rt.lt range threshold

  -- Some return, wherever it is, is nearer than the threshold.
  abbrev pub any_below : F → List (Beam F) → Bool
  any_below threshold [] = false
  any_below threshold (beam ∷ beams) = below_at threshold beam.range_m || any_below threshold beams

  -- Whether a motion may start, by the shape of its path.
  abbrev pub admits : SweptPath F → F → F → List (Beam F) → Option F → Shape → Result Bool
  admits path threshold half_width beams minimum planned = ok true
  admits path threshold half_width [] none shape = ok false
  admits path threshold half_width [] (some minimum) shape = ok (not (rt.lt minimum threshold))
  admits path threshold half_width (beam ∷ beams) minimum corridor =
      blocks path.direction_rad half_width threshold (beam ∷ beams) >>= λ b. ok (not b)
  admits path threshold half_width (beam ∷ beams) minimum footprint =
      ok (not (any_below threshold (beam ∷ beams)))

  abbrev pub Finite : Option F → Type 0
  Finite none = Unit
  Finite (some x) = rt.is_finite x ≡ true

  abbrev pub FiniteBest : Option (F × F) → Type 0
  FiniteBest none = Unit
  FiniteBest (some best) = rt.is_finite best.0 ≡ true

  Finite-range_of : (v : Value F) → Finite (range_of v)
  unfolding range_of
  Finite-range_of (integer z) =
      if_split Finite (rt.is_finite (rt.of_integer z) && rt.lt zero_float (rt.of_integer z))
        (λ h. ground arith) λ h. tt
  Finite-range_of (number x) =
      if_split Finite (rt.is_finite x && rt.lt zero_float x) (λ h. ground arith) λ h. tt
  Finite-range_of null = tt
  Finite-range_of (flag b) = tt
  Finite-range_of (text s) = tt
  Finite-range_of (array vs) = tt
  Finite-range_of (object raw) = tt

  abbrev pub FiniteBeams : List (Beam F) → Type 0
  FiniteBeams beams = All (λ beam. Finite beam.range_m) beams

  FiniteBeams-beams_from :
      (start step : F) (index : ℕ) (vs : Items F)
      → OkAnd FiniteBeams (beams_from start step index vs)
  unfolding beams_from
  FiniteBeams-beams_from start step index nil = tt
  FiniteBeams-beams_from start step index (cons raw vs) =
      OkAnd-then FiniteBeams (remainder_tau _) _ λ bearing _.
        OkAnd-bind FiniteBeams FiniteBeams (beams_from start step (index + 1) vs) _
          (FiniteBeams-beams_from start step (index + 1) vs) λ beams h. (Finite-range_of raw, h)

  FiniteBeams-swept :
      (start step : Option F) (vs : Option (Items F)) → OkAnd FiniteBeams (swept start step vs)
  FiniteBeams-swept (some start) (some step) (some vs) =
      if_split (OkAnd FiniteBeams)
        (not (rt.is_finite start && rt.is_finite step) || rt.eq step zero_float) (λ h. tt)
        λ h. FiniteBeams-beams_from start step 0 vs
  FiniteBeams-swept (some start) (some step) none = tt
  FiniteBeams-swept (some start) none vs = tt
  FiniteBeams-swept none step vs = tt

  pub FiniteBeams-sweep_beams : (v : Value F) → OkAnd FiniteBeams (sweep_beams v)
  unfolding sweep_beams
  FiniteBeams-sweep_beams (object sweep) = FiniteBeams-swept _ _ _
  FiniteBeams-sweep_beams null = tt
  FiniteBeams-sweep_beams (flag b) = tt
  FiniteBeams-sweep_beams (integer z) = tt
  FiniteBeams-sweep_beams (number x) = tt
  FiniteBeams-sweep_beams (text s) = tt
  FiniteBeams-sweep_beams (array vs) = tt
