-- ===== src/Mission/Ranges.antt =====
-- mission.py: one lidar sweep as the nearest return in each sector, and the sectors that a motion
-- depends on.
use flyto_robotics.Prelude.{
  ℕ, String, Bool, true, false, not, ◌&&◌, ◌||◌, Option, none, some, List, [], ◌∷◌, ◌++◌, ◌+◌,
  if◌then◌else◌, contains,
}
use flyto_robotics.Prelude.Int.{pos}
use flyto_robotics.Python.{Runtime, fmin}

pub data Intent : Type 0 where
  forward_motion reverse_motion rotation : Intent

pub record RangeField (F : Type 0) : Type 0 where
  pub forward : F
  pub left : F
  pub right : F
  pub rear : F
  pub closest : F
  pub directional : Bool
  pub blind : List String

-- What `tick` takes: the nearest return anywhere, or one range for each sector.
pub data RangeInput (F : Type 0) : Type 0 where
  single : F → RangeInput F
  sectors : RangeField F → RangeInput F

pub data Sector : Type 0 where
  front port starboard back : Sector

abbrev sector_name : Sector → String
sector_name front = "forward"
sector_name port = "left"
sector_name starboard = "right"
sector_name back = "rear"

-- The sectors that a motion consults, in order.
abbrev pub consulted : Intent → List String
consulted reverse_motion = "rear" ∷ []
consulted rotation = "forward" ∷ "left" ∷ "right" ∷ "rear" ∷ []
consulted forward_motion = "forward" ∷ []

unfoldable pub first_blind : List String → List String → Option String
first_blind [] blind = none
first_blind (s ∷ names) blind = if contains s blind then some s else first_blind names blind

unfoldable pub blind_for : {F : Type 0} → RangeField F → Intent → Option String
unfolding first_blind
blind_for field intent = first_blind (consulted intent) field.blind

-- What a sweep has said about one sector so far.
pub record Reading (F : Type 0) : Type 0 where
  pub nearest : F
  pub definite : Bool
  pub covered : Bool

pub record Sweep (F : Type 0) : Type 0 where
  pub ahead : Reading F
  pub to_left : Reading F
  pub to_right : Reading F
  pub behind : Reading F
  pub closest : F

unfoldable pub at_sector : {F : Type 0} → Sector → (Reading F → Reading F) → Sweep F → Sweep F
at_sector front f s = record s { ahead = f s.ahead }
at_sector port f s = record s { to_left = f s.to_left }
at_sector starboard f s = record s { to_right = f s.to_right }
at_sector back f s = record s { behind = f s.behind }

abbrev at_some_sector : {F : Type 0} → Option Sector → (Reading F → Reading F) → Sweep F → Sweep F
at_some_sector none f s = s
at_some_sector (some sector) f s = at_sector sector f s

abbrev blind_name : {F : Type 0} → Sector → Reading F → List String
blind_name sector r = if r.covered && not r.definite then sector_name sector ∷ [] else []

module _ {F : Type 0} ⦃rt : Runtime F⦄ where
  unfoldable pub omnidirectional : F → RangeField F
  omnidirectional minimum_range = record {
    forward = rt.infinity;
    left = rt.infinity;
    right = rt.infinity;
    rear = rt.infinity;
    closest = minimum_range;
    directional = false;
    blind = [];
  }

  unfoldable pub as_field : RangeInput F → RangeField F
  unfolding omnidirectional
  as_field (single r) = omnidirectional r
  as_field (sectors field) = field

  -- `field.blocking(intent)`: the range that matters for this motion, and what to call it.
  unfoldable pub blocking : RangeField F → Intent → F × String
  unfolding fmin
  blocking field reverse_motion = (field.rear, "behind")
  blocking field rotation =
      (fmin (fmin (fmin field.forward field.left) field.right) field.rear, "in the turn")
  blocking field forward_motion = (field.forward, "ahead")

  sector_of : F → Option Sector
  sector_of bearing =
      if rt.le bearing (rt.decimal 150 1)
        || rt.le (rt.sub (rt.decimal 3600 1) (rt.decimal 150 1)) bearing
      then some front
      else if rt.le (rt.abs (rt.sub bearing (rt.decimal 900 1))) (rt.decimal 300 1)
      then some port
      else if rt.le (rt.abs (rt.sub bearing (rt.decimal 2700 1))) (rt.decimal 300 1)
      then some starboard
      else if rt.le (rt.abs (rt.sub bearing (rt.decimal 1800 1))) (rt.decimal 150 1)
      then some back
      else none

  -- One beam: no answer (a NaN, or under the floor), nothing within reach, or a return.
  unfoldable pub beam : F → F → Option Sector → F → Sweep F → Sweep F
  unfolding at_sector fmin
  beam range_min range_max sector value s =
      let s = at_some_sector sector (λ r. record r { covered = true }) s in
      if rt.is_nan value
      then s
      else if rt.lt range_max value
      then at_some_sector sector (λ r. record r { definite = true }) s
      else if rt.lt value range_min || rt.le value (rt.decimal 0 1)
      then s
      else at_some_sector sector (λ r. record r { definite = true; nearest = fmin r.nearest value })
          (record s { closest = fmin s.closest value })

  -- The loop, from beam number `index` on.
  beams : F → F → F → F → ℕ → List F → Sweep F → Sweep F
  unfolding sector_of beam
  beams angle_min angle_increment range_min range_max index [] s = s
  beams angle_min angle_increment range_min range_max index (value ∷ ranges) s =
      let bearing =
        rt.modulo
          (rt.degrees (rt.add angle_min (rt.mul angle_increment (rt.of_integer (pos index)))))
          (rt.decimal 3600 1) in
      beams angle_min angle_increment range_min range_max (index + 1) ranges
        (beam range_min range_max (sector_of bearing) value s)

  no_reading : Reading F
  no_reading = record { nearest = rt.infinity; definite = false; covered = false }

  unfoldable pub start_sweep : Sweep F
  unfolding no_reading
  start_sweep = record {
    ahead = no_reading;
    to_left = no_reading;
    to_right = no_reading;
    behind = no_reading;
    closest = rt.infinity;
  }

  unfoldable pub finish_sweep : Sweep F → RangeField F
  finish_sweep s = record {
    forward = s.ahead.nearest;
    left = s.to_left.nearest;
    right = s.to_right.nearest;
    rear = s.behind.nearest;
    closest = s.closest;
    directional = true;
    blind =
        blind_name front s.ahead
        ++ (blind_name port s.to_left
            ++ (blind_name starboard s.to_right ++ blind_name back s.behind));
  }

  unfoldable pub sector_field : List F → F → F → F → F → RangeField F
  unfolding beams start_sweep finish_sweep
  sector_field ranges angle_min angle_increment range_min range_max =
      finish_sweep (beams angle_min angle_increment range_min range_max 0 ranges start_sweep)
