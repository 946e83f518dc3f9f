-- ===== src/LinePerception.antt =====
-- flyto_robotics/line_perception.py: what one camera frame says about the colored lines.
use flyto_robotics.Prelude.{
  ℕ, String, Bool, Option, none, some, List, [], ◌∷◌, if◌then◌else◌, str_eq,
}

pub record LineObservation (F : Type 0) : Type 0 where
  pub color : String
  pub visible : Bool
  pub confidence : F
  pub lateral_error : F
  pub pixel_count : ℕ

pub record LineScene (F : Type 0) : Type 0 where
  pub detections : List (LineObservation F)

module _ {F : Type 0} where
  first_of_color : String → List (LineObservation F) → Option (LineObservation F)
  first_of_color color [] = none
  first_of_color color (item ∷ items) =
      if str_eq item.color color then some item else first_of_color color items

  -- `scene.get(color)`
  unfoldable pub get : LineScene F → String → Option (LineObservation F)
  unfolding first_of_color
  get scene color = first_of_color color scene.detections
