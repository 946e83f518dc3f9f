-- ===== src/PathClearance.antt =====
-- flyto_robotics/path_clearance.py: whether the path that a motion sweeps is clear before it starts;
-- with the beams of flyto_robotics/inflation_escape.py.
pub mod Returns
pub mod Loops
pub mod Judging
use flyto_robotics.Prelude.{
  ℕ, ◌+◌, ◌*◌, String, Bool, true, false, not, ◌&&◌, ◌||◌, Option, none, some, List, [], ◌∷◌,
  if◌then◌else◌, str_eq, codes, lookup, insert, or_else, is_some,
}
use flyto_robotics.Prelude.Int.{ℤ, pos}
use flyto_robotics.Python.{
  Value, null, integer, number, text, array, object, Items, nil, cons, Fields, end, entry, Runtime,
  zero_float, fmin, sine, cosine, to_float, Result, ok, raised, value_error,
}
use flyto_robotics.Python.Checks.{◌>>=◌}
use flyto_robotics.Python.Mappings.{field, keys}

pub record Beam (F : Type 0) : Type 0 where
  pub bearing : F
  pub range_m : Option F

pub data Shape : Type 0 where
  corridor footprint planned : Shape

pub record SweptPath (F : Type 0) : Type 0 where
  pub shape : Shape
  pub direction_rad : F

pub record PathClearance (F : Type 0) : Type 0 where
  pub motion_kind : String
  pub shape : Shape
  pub admitted : Bool
  pub reason : String
  pub floor_m : F
  pub radius_m : F
  pub threshold_m : F
  pub clearance_m : Option F
  pub limiting_bearing_rad : Option F
  pub sectors : List (String × Option F)

-- `motion_kind or "unspecified"`
abbrev pub kind_of : Option String → String
kind_of none = "unspecified"
kind_of (some kind) = if str_eq kind "" then "unspecified" else kind

abbrev is_footprint : Shape → Bool
is_footprint footprint = true
is_footprint _ = false

module _ {F : Type 0} where
  abbrev no_items : List ℕ → Items F
  no_items [] = nil
  no_items (c ∷ cs) = cons null (no_items cs)

  abbrev key_items : List String → Items F
  key_items [] = nil
  key_items (k ∷ ks) = cons (text k) (key_items ks)

  -- `list(value)`; the characters of a text are no numbers, so what they are does not count.
  abbrev listed : Option (Value F) → Option (Items F)
  listed (some (array vs)) = some vs
  listed (some (text s)) = some (no_items (codes s))
  listed (some (object raw)) = some (key_items (keys raw))
  listed _ = none

module _ {F : Type 0} ⦃rt : Runtime F⦄ where
  unfoldable pub tau : F
  tau = rt.mul (rt.decimal 20 1) rt.pi

  unfoldable pub remainder_tau : F → Result F
  remainder_tau x = elim (rt.remainder x tau) [
    | none ↦ raised (value_error "math domain error")
    | some y ↦ ok y
  ]

  -- `float(sweep[key])`, `none` where the exception is caught
  abbrev caught : Result F → Option F
  caught (ok x) = some x
  caught (raised e) = none

  abbrev float_at : Option (Value F) → Option F
  float_at none = none
  float_at (some v) = caught (to_float v)

  abbrev positive : F → Option F
  positive x = if rt.is_finite x && rt.lt zero_float x then some x else none

  unfoldable pub range_of : Value F → Option F
  range_of (integer z) = positive (rt.of_integer z)
  range_of (number x) = positive x
  range_of _ = none

  unfoldable pub beams_from : F → F → ℕ → Items F → Result (List (Beam F))
  unfolding range_of
  beams_from start step index nil = ok []
  beams_from start step index (cons raw ranges) = do
    bearing ← remainder_tau (rt.add start (rt.mul step (rt.of_integer (pos index))))
    beams ← beams_from start step (index + 1) ranges
    ok (record { bearing = bearing; range_m = range_of raw } ∷ beams)

  abbrev swept : Option F → Option F → Option (Items F) → Result (List (Beam F))
  swept (some start) (some step) (some ranges) =
      if not (rt.is_finite start && rt.is_finite step) || rt.eq step zero_float
      then ok []
      else beams_from start step 0 ranges
  swept _ _ _ = ok []

  unfoldable pub sweep_beams : Value F → Result (List (Beam F))
  unfolding to_float beams_from
  sweep_beams (object sweep) =
      swept (float_at (field "angle_min_rad" sweep)) (float_at (field "angle_increment_rad" sweep))
        (listed (field "ranges_m" sweep))
  sweep_beams _ = ok []

  abbrev side_at : F → String
  side_at degrees =
      if rt.le (rt.abs degrees) (rt.decimal 450 1)
      then "ahead"
      else if rt.le (rt.decimal 1350 1) (rt.abs degrees)
      then "behind"
      else if rt.lt zero_float degrees
      then "left"
      else "right"

  unfoldable pub side_of : F → Result String
  side_of bearing_rad = do turned ← remainder_tau bearing_rad; ok (side_at (rt.degrees turned))

  -- The nearer of a sector's return so far and a new one.
  abbrev nearer_return : Option (Option F) → F → Option F
  nearer_return (some (some current)) x = if rt.lt x current then some x else some current
  nearer_return _ x = some x

  abbrev sector_step : Option F → F → List (String × Option F) → Result (List (String × Option F))
  sector_step none bearing nearest = ok nearest
  sector_step (some x) bearing nearest =
      side_of bearing >>= λ side. ok (insert side (nearer_return (lookup side nearest) x) nearest)

  unfoldable pub sectors_from :
      List (Beam F) → List (String × Option F) → Result (List (String × Option F))
  sectors_from [] nearest = ok nearest
  sectors_from (beam ∷ beams) nearest = do
    after ← sector_step beam.range_m beam.bearing nearest
    sectors_from beams after

  unfoldable pub sector_clearances : List (Beam F) → Result (List (String × Option F))
  sector_clearances beams =
      sectors_from beams
        (("ahead", none) ∷ ("left", none) ∷ ("behind", none) ∷ ("right", none) ∷ [])

  -- `x > 0.0 and abs(y) < half_width`, of a return at this range
  unfoldable pub in_corridor : F → F → F → F → Result Bool
  in_corridor direction half_width range bearing = do
    relative ← remainder_tau (rt.sub bearing direction)
    along ← cosine relative
    across ← sine relative
    ok (rt.lt zero_float (rt.mul range along) && rt.lt (rt.abs (rt.mul range across)) half_width)

  abbrev pub closer : Option (F × F) → F → F → Option (F × F)
  closer none range bearing = some (range, bearing)
  closer (some best) range bearing = if rt.lt range best.0 then some (range, bearing) else some best

  -- One turn of the loop, on the nearest return so far.
  unfoldable pub corridor_step : F → F → Option (F × F) → Option F → F → Result (Option (F × F))
  corridor_step direction half_width best none bearing = ok best
  corridor_step direction half_width best (some range) bearing =
      in_corridor direction half_width range bearing >>= λ inside.
      ok (if inside then closer best range bearing else best)

  unfoldable pub corridor_from : F → F → Option (F × F) → List (Beam F) → Result (Option (F × F))
  unfolding corridor_step
  corridor_from direction half_width best [] = ok best
  corridor_from direction half_width best (beam ∷ beams) = do
    after ← corridor_step direction half_width best beam.range_m beam.bearing
    corridor_from direction half_width after beams

  -- `min` of the pairs of range and bearing: a later one counts if it is below.
  abbrev pub lower_pair : Option (F × F) → F × F → Option (F × F)
  lower_pair none p = some p
  lower_pair (some best) p =
      if (if rt.eq p.0 best.0 then rt.lt p.1 best.1 else rt.lt p.0 best.0)
      then some p
      else some best

  abbrev pub nearest_step : Option (F × F) → Option F → F → Option (F × F)
  nearest_step best none bearing = best
  nearest_step best (some range) bearing = lower_pair best (range, bearing)

  unfoldable pub nearest_from : Option (F × F) → List (Beam F) → Option (F × F)
  nearest_from best [] = best
  nearest_from best (beam ∷ beams) =
      nearest_from (nearest_step best beam.range_m beam.bearing) beams

  abbrev pub swept_paths : List (String × SweptPath F)
  swept_paths =
      ("advance", record { shape = corridor; direction_rad = rt.decimal 0 1 })
      ∷ ("retreat", record { shape = corridor; direction_rad = rt.pi })
      ∷ ("rotate", record { shape = footprint; direction_rad = rt.decimal 0 1 })
      ∷ ("planned", record { shape = planned; direction_rad = rt.decimal 0 1 })
      ∷ []

  abbrev pub path_of : String → SweptPath F
  path_of kind =
      or_else (lookup kind swept_paths)
        (record { shape = footprint; direction_rad = rt.decimal 0 1 })

  abbrev pub radius_of : String → F → F
  radius_of kind radius_m =
      if is_footprint (path_of kind).shape && is_some (lookup kind swept_paths)
      then radius_m
      else rt.decimal 0 1

  -- `verdict`, with what it reads of the call.
  abbrev pub verdict :
      String
      → F
      → F
      → List (String × Option F)
      → Shape
      → String
      → Option F
      → Option F
      → PathClearance F
  verdict kind floor_m radius sectors shape reason clearance bearing = record {
    motion_kind = kind;
    shape = shape;
    admitted = str_eq reason "clear" || str_eq reason "left_to_planner";
    reason = reason;
    floor_m = floor_m;
    radius_m = radius;
    threshold_m = rt.add floor_m radius;
    clearance_m = clearance;
    limiting_bearing_rad = bearing;
    sectors = sectors;
  }

  abbrev pub reason_at : F → F → String
  reason_at clearance threshold = if rt.lt clearance threshold then "path_blocked" else "clear"

  unfoldable pub measured :
      (Shape → String → Option F → Option F → PathClearance F)
      → Shape
      → F
      → Option (F × F)
      → PathClearance F
  measured made shape threshold none = made shape "clear" none none
  measured made shape threshold (some found) =
      made shape (reason_at found.0 threshold) (some found.0) (some found.1)

  -- Without beams, on the nearest return in any direction.
  unfoldable pub without_beams :
      (Shape → String → Option F → Option F → PathClearance F) → F → Option F → PathClearance F
  without_beams made threshold none = made footprint "path_unreadable" none none
  without_beams made threshold (some minimum) =
      made footprint (reason_at minimum threshold) (some minimum) none

  unfoldable pub judge_path :
      (Shape → String → Option F → Option F → PathClearance F)
      → SweptPath F
      → F
      → F
      → List (Beam F)
      → Option F
      → Shape
      → Result (PathClearance F)
  judge_path made path threshold half_width beams minimum planned =
      ok (made planned "left_to_planner" none none)
  judge_path made path threshold half_width [] minimum shape =
      ok (without_beams made threshold minimum)
  judge_path made path threshold half_width (beam ∷ beams) minimum corridor =
      corridor_from path.direction_rad half_width none (beam ∷ beams) >>= λ found.
      ok (measured made corridor threshold found)
  judge_path made path threshold half_width (beam ∷ beams) minimum footprint =
      ok (measured made footprint threshold (nearest_from none (beam ∷ beams)))

  -- `sector_clearances(beams) if beams else {}`
  abbrev pub sectors_of : List (Beam F) → Result (List (String × Option F))
  sectors_of [] = ok []
  sectors_of (beam ∷ beams) = sector_clearances (beam ∷ beams)

  unfoldable pub judge : Value F → Option String → F → F → Option F → Result (PathClearance F)
  judge sweep motion_kind floor_m radius_m minimum_range_m = do
    beams ← sweep_beams sweep
    sectors ← sectors_of beams
    let kind = kind_of motion_kind
    let radius = radius_of kind radius_m
    judge_path (verdict kind floor_m radius sectors) (path_of kind) (rt.add floor_m radius)
        (rt.add floor_m radius_m) beams minimum_range_m (path_of kind).shape
