-- ===== src/PathClearance/Judging.antt =====
-- path_clearance.py: a motion is admitted exactly if nothing on its path is nearer than the threshold.
use flyto_robotics.Prelude.{
  ◌≡◌, refl, ap, ◌∙◌, String, Bool, true, false, not, Option, none, some, List, [], ◌∷◌, Bool-cases,
  inl, inr,
}
use flyto_robotics.Python.{Value, Runtime, Result, ok, raised}
use flyto_robotics.Python.Checks.{◌>>=◌, OkAnd}
use flyto_robotics.PathClearance.{
  Beam, Shape, corridor, footprint, planned, SweptPath, PathClearance, sweep_beams, corridor_from,
  nearest_from, path_of, kind_of, radius_of, verdict, reason_at, measured, without_beams,
  judge_path, sectors_of, judge,
}
use flyto_robotics.PathClearance.Returns.{
  under, blocks, admits, FiniteBeams, FiniteBeams-sweep_beams,
}
use flyto_robotics.PathClearance.Loops.{Agree, nearest_from_lem, Agree-corridor_from}

module _ {F : Type 0} ⦃rt : Runtime F⦄ where
  -- Whether the verdict on what was measured admits the motion.
  abbrev pub passes : Result (PathClearance F) → Result Bool
  passes r = r >>= λ v. ok v.admitted

-- The laws of the floats' order: below is transitive, a finite number that a number below a bound is not
-- below lies below that bound too, and equal numbers are below the same ones.
module _ {F : Type 0} ⦃rt : Runtime F⦄
    (transitive : (x y z : F) → rt.lt x y ≡ true → rt.lt y z ≡ true → rt.lt x z ≡ true)
    (between : (x y z : F)
      → rt.is_finite y ≡ true
      → rt.lt x z ≡ true
      → rt.lt x y ≡ false
      → rt.lt y z ≡ true)
    (same : (x y z : F) → rt.eq x y ≡ true → rt.lt x z ≡ rt.lt y z) (threshold : F) where
  module _ (kind : String) (floor_m radius : F) (sectors : List (String × Option F)) where
    abbrev made : Shape → String → Option F → Option F → PathClearance F
    made = verdict kind floor_m radius sectors

    admitted-reason_at :
        (shape : Shape) (x : F) (clearance bearing : Option F)
        → (made shape (reason_at x threshold) clearance bearing).admitted ≡ not (rt.lt x threshold)
    admitted-reason_at shape x clearance bearing = elim (Bool-cases (rt.lt x threshold)) [
      | inl e ↦ rw e refl
      | inr e ↦ rw e refl
    ]

    admitted-measured :
        (shape : Shape) (found : Option (F × F))
        → (measured made shape threshold found).admitted ≡ not (under threshold found)
    unfolding measured
    admitted-measured shape none = refl
    admitted-measured shape (some found) =
        admitted-reason_at shape found.0 (some found.0) (some found.1)

    passes-found :
        (r : Result (Option (F × F))) (q : Result Bool)
        → Agree transitive between same threshold none r q
        → passes (r >>= λ found. ok (measured made corridor threshold found))
          ≡ (q >>= λ b. ok (not b))
    passes-found (ok found) (ok b) (fin, e) = ap ok (admitted-measured corridor found ∙ ap not e)
    passes-found (raised x) (raised y) h = ap raised h
    passes-found (ok found) (raised y) h = absurd h
    passes-found (raised x) (ok b) h = absurd h

    passes-judge_path :
        (path : SweptPath F) (half_width : F) (beams : List (Beam F)) (minimum : Option F)
        (shape : Shape)
        → FiniteBeams beams
        → passes (judge_path made path threshold half_width beams minimum shape)
          ≡ admits path threshold half_width beams minimum shape
    unfolding judge_path without_beams
    passes-judge_path path half_width beams minimum planned h = refl
    passes-judge_path path half_width [] none corridor h = refl
    passes-judge_path path half_width [] none footprint h = refl
    passes-judge_path path half_width [] (some x) corridor h =
        ap ok (admitted-reason_at footprint x (some x) none)
    passes-judge_path path half_width [] (some x) footprint h =
        ap ok (admitted-reason_at footprint x (some x) none)
    passes-judge_path path half_width (beam ∷ beams) minimum corridor h =
        passes-found (corridor_from path.direction_rad half_width none (beam ∷ beams))
          (blocks path.direction_rad half_width threshold (beam ∷ beams))
          (Agree-corridor_from transitive between same threshold path.direction_rad half_width none
            (beam ∷ beams) tt h)
    passes-judge_path path half_width (beam ∷ beams) minimum footprint h = ap ok (
        admitted-measured footprint (nearest_from none (beam ∷ beams))
        ∙ ap not (nearest_from_lem transitive between same threshold none (beam ∷ beams) tt h))

module _ {F : Type 0} ⦃rt : Runtime F⦄ where
  abbrev path_judged :
      String
      → F
      → F
      → List (Beam F)
      → Option F
      → List (String × Option F)
      → Result (PathClearance F)
  path_judged kind floor_m radius_m beams minimum sectors =
      let path : SweptPath F = path_of kind in
      judge_path (verdict kind floor_m (radius_of kind radius_m) sectors) path
        (rt.add floor_m (radius_of kind radius_m)) (rt.add floor_m radius_m) beams minimum
        path.shape

  -- What a motion of this kind needs.
  abbrev pub may_start : String → F → F → List (Beam F) → Option F → Result Bool
  may_start kind floor_m radius_m beams minimum =
      let path : SweptPath F = path_of kind in
      admits path (rt.add floor_m (radius_of kind radius_m)) (rt.add floor_m radius_m) beams minimum
        path.shape

-- The same laws, for whatever threshold.
module _ {F : Type 0} ⦃rt : Runtime F⦄
    (transitive : (x y z : F) → rt.lt x y ≡ true → rt.lt y z ≡ true → rt.lt x z ≡ true)
    (between : (x y z : F)
      → rt.is_finite y ≡ true
      → rt.lt x z ≡ true
      → rt.lt x y ≡ false
      → rt.lt y z ≡ true)
    (same : (x y z : F) → rt.eq x y ≡ true → rt.lt x z ≡ rt.lt y z) where
  after_sectors :
      (kind : String) (floor_m radius_m : F) (beams : List (Beam F)) (minimum : Option F)
      (q : Result (List (String × Option F)))
      → FiniteBeams beams
      → passes (q >>= λ sectors. path_judged kind floor_m radius_m beams minimum sectors)
        ≡ (q >>= λ sectors. may_start kind floor_m radius_m beams minimum)
  after_sectors kind floor_m radius_m beams minimum (ok sectors) h =
      let path : SweptPath F = path_of kind in
      passes-judge_path transitive between same (rt.add floor_m (radius_of kind radius_m)) kind
        floor_m (radius_of kind radius_m) sectors path (rt.add floor_m radius_m) beams minimum
        path.shape h
  after_sectors kind floor_m radius_m beams minimum (raised e) h = refl

  after_beams :
      (kind : String) (floor_m radius_m : F) (r : Result (List (Beam F))) (minimum : Option F)
      → OkAnd FiniteBeams r
      → passes (
          r >>= λ beams.
          (sectors_of beams >>= λ sectors. path_judged kind floor_m radius_m beams minimum sectors))
        ≡ (r >>= λ beams.
            (sectors_of beams >>= λ sectors. may_start kind floor_m radius_m beams minimum))
  after_beams kind floor_m radius_m (ok beams) minimum h =
      after_sectors kind floor_m radius_m beams minimum (sectors_of beams) h
  after_beams kind floor_m radius_m (raised e) minimum h = refl

  -- If the order of the floats is transitive, a finite number that a number below a bound is not below
  -- lies below that bound too, and equal numbers are below the same ones, then a motion is judged as
  -- follows. A planned motion is admitted. Without beams, the one distance that is known
  -- must reach the threshold. A drive is admitted exactly if no return in its corridor is nearer than
  -- the threshold, any other motion exactly if no return at all is. An exception of the geometry is
  -- raised.
  pub passes-judge :
      (sweep : Value F) (motion_kind : Option String) (floor_m radius_m : F) (minimum : Option F)
      → passes (judge sweep motion_kind floor_m radius_m minimum) ≡ (
          sweep_beams sweep >>= λ beams.
          (sectors_of beams >>= λ sectors.
          may_start (kind_of motion_kind) floor_m radius_m beams minimum))
  unfolding judge
  passes-judge sweep motion_kind floor_m radius_m minimum =
      after_beams (kind_of motion_kind) floor_m radius_m (sweep_beams sweep) minimum
        (FiniteBeams-sweep_beams sweep)
