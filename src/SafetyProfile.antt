-- ===== src/SafetyProfile.antt =====
-- flyto_robotics/safety_profile.py: the site's limits, into which a job's are folded, with the audit
-- of their changes; and contracts.py where it folds them. A file is what reading it gives, and the
-- faults that the next writes meet are arguments.
pub mod Limits
pub mod Site
pub mod Jobs
pub mod Audit
pub mod Changes
use flyto_robotics.Prelude.{
  ℕ, String, Bool, true, false, not, ◌&&◌, ◌||◌, Option, none, some, List, [], ◌∷◌, ◌++◌, map,
  if◌then◌else◌, ltb, contains, str_eq, lookup, format, sort_by, text_le, or_else, is_some,
}
use flyto_robotics.Prelude.Int.{ℤ}
use flyto_robotics.Python.{
  Value, null, flag, integer, number, text, array, object, Items, Fields, end, entry, Runtime,
  zero_float, fmin, fmax, Result, ok, raised, safety_profile_error, os_error,
}
use flyto_robotics.Python.Platform.{Platform}
use flyto_robotics.Python.Mappings.{field, keys, items, join, without, unknown_names, is_nothing}
use flyto_robotics.Python.Checks.{raise_if, ◌>>=◌, ◌>>◌}
use flyto_robotics.Contracts.{SafetyLimits}

pub data Direction : Type 0 where
  at_most at_least : Direction

abbrev pub constrainable : List (String × Direction)
constrainable =
    ("max_linear_speed", at_most)
    ∷ ("max_angular_speed", at_most)
    ∷ ("obstacle_stop_distance", at_least)
    ∷ ("lateral_stop_distance", at_least)
    ∷ ("emergency_stop_distance", at_least)
    ∷ []

abbrev pub profile_contract_version : String
profile_contract_version = "flyto.robotics.safety-profile.v1"

abbrev pub max_profile_bytes : ℕ
max_profile_bytes = 16384

-- The keys of a dictionary, in their order.
abbrev pub names {ℓ} : {A : Type ℓ} → List (String × A) → List String
names [] = []
names ((name, a) ∷ d) = name ∷ names d

abbrev pub refused {ℓ} : {A : Type ℓ} → List String → Result A
refused message = raised (safety_profile_error (format message))

pub record Adjustment (F : Type 0) : Type 0 where
  pub field_name : String
  pub requested : F
  pub applied : F
  pub direction : Direction

pub record ProfileOutcome (F : Type 0) : Type 0 where
  pub values : List (String × F)
  pub adjustments : List (Adjustment F)

module _ {F : Type 0} where
  -- The first pass of the fold, which the fields not asked for leave.
  abbrev pub asked : List (String × Option F) → List (String × F)
  asked [] = []
  asked ((name, none) ∷ requested) = asked requested
  asked ((name, some x) ∷ requested) = (name, x) ∷ asked requested

  abbrev pub is_version : Option (Value F) → Bool
  is_version (some (text s)) = str_eq s profile_contract_version
  is_version _ = false

  -- `document.get("limits", {})`
  unfoldable pub limits_of : Option (Value F) → Result (Fields F)
  limits_of none = ok end
  limits_of (some (object limits)) = ok limits
  limits_of (some v) = refused ("safety profile limits must be an object" ∷ [])

module _ {F : Type 0} ⦃rt : Runtime F⦄ where
  abbrev is_not_finite : F → Bool
  is_not_finite x = not (rt.eq x x) || (rt.eq x rt.infinity || rt.eq x (rt.neg rt.infinity))

  abbrev positive : F → String → Result F
  positive x name =
      if is_not_finite x
      then refused (name ∷ " must be finite" ∷ [])
      else if rt.le x zero_float
      then refused (name ∷ " must be greater than zero" ∷ [])
      else ok x

  unfoldable pub number_of : Value F → String → Result F
  number_of (integer z) name = positive (rt.of_integer z) name
  number_of (number x) name = positive x name
  number_of _ name = refused (name ∷ " must be a number" ∷ [])

  unfoldable pub numbers_of : Fields F → Result (List (String × F))
  unfolding number_of
  numbers_of end = ok []
  numbers_of (entry name value limits) = do
    x ← number_of value (format ("limits." ∷ name ∷ []))
    rest ← numbers_of limits
    ok ((name, x) ∷ rest)

  unfoldable pub parse_profile : Value F → Result (List (String × F))
  parse_profile (object document) = do
    raise_if (not (is_version (field "contract_version" document))) (
        safety_profile_error
          (format ("safety profile contract_version must be " ∷ profile_contract_version ∷ [])))
    limits ← limits_of (field "limits" document)
    raise_if (not (is_nothing (without (names constrainable) (keys limits)))) (
        safety_profile_error (
          format (
            "safety profile cannot constrain "
            ∷ join (unknown_names (names constrainable) (keys limits))
            ∷ "; settable limits are "
            ∷ join (sort_by text_le (names constrainable))
            ∷ [])))
    numbers_of limits
  parse_profile _ = refused ("safety profile must be a JSON object" ∷ [])

  -- The limit that a value becomes under the site's.
  unfoldable pub fold_limit : Direction → F → F → F
  unfolding fmin fmax
  fold_limit at_most asked_for limit = fmin asked_for limit
  fold_limit at_least asked_for limit = fmax asked_for limit

  abbrev adjustments_of : String → Direction → F → F → List (Adjustment F)
  adjustments_of name direction x applied =
      if rt.eq applied x
      then []
      else record { field_name = name; requested = x; applied = applied; direction = direction }
        ∷ []

  -- One turn of the loop: the field's value, and whether it was adjusted.
  unfoldable pub apply_limit : Option F → Option Direction → String → F → F × List (Adjustment F)
  unfolding fold_limit
  apply_limit (some limit) (some direction) name x =
      let applied = fold_limit direction x limit in
      (applied, adjustments_of name direction x applied)
  apply_limit _ _ name x = (x, [])

  unfoldable pub apply_asked : List (String × F) → List (String × F) → ProfileOutcome F
  apply_asked profile [] = record { values = []; adjustments = [] }
  apply_asked profile ((name, x) ∷ requested) =
      let (applied, adjusted) =
        apply_limit (lookup name profile) (lookup name constrainable) name x in
      let rest = apply_asked profile requested in
      record { values = (name, applied) ∷ rest.values; adjustments = adjusted ++ rest.adjustments }

  unfoldable pub apply_profile : List (String × F) → List (String × Option F) → ProfileOutcome F
  unfolding apply_asked
  apply_profile profile requested = apply_asked profile (asked requested)

  unfoldable pub is_more_conservative : String → F → F → Result Bool
  is_more_conservative name candidate than = elim (lookup name constrainable) [
    | none ↦ refused (name ∷ " is not a constrainable limit" ∷ [])
    | some at_most ↦ ok (rt.lt candidate than)
    | some at_least ↦ ok (rt.lt than candidate)
  ]
