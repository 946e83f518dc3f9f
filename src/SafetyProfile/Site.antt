-- ===== src/SafetyProfile/Site.antt =====
-- safety_profile.py: the site's file and the audit of its changes; and contracts.py, where a job's
-- limits are folded into the site's. A file is what reading it gives; the faults that the next
-- writes meet are arguments.
use flyto_robotics.Prelude.{
  ℕ, String, Option, none, some, List, [], ◌∷◌, if◌then◌else◌, ltb, lookup, or_else,
}
use flyto_robotics.Python.{Value, Runtime, Result, ok}
use flyto_robotics.Python.Platform.{Platform}
use flyto_robotics.Python.Checks.{◌>>=◌}
use flyto_robotics.Contracts.{SafetyLimits}
use flyto_robotics.SafetyProfile.{
  ProfileOutcome, max_profile_bytes, refused, parse_profile, apply_profile,
}

-- What reading a path gives: nothing is there, what is there is no text, or a text.
pub data ProfileFile : Type 0 where
  absent : ProfileFile
  unreadable : ℕ → ProfileFile
  holds : String → ProfileFile

-- The JSON codec: the value of a text, the indented form of a value and its form of one line.
pub record ProfileCodec (F : Type 0) : Type 0 where
  pub decode : String → Option (Value F)
  pub indented : Value F → String
  pub one_line : Value F → String

module _ {F : Type 0} ⦃rt : Runtime F⦄ ⦃platform : Platform⦄ ⦃codec : ProfileCodec F⦄ where
  abbrev decoded : String → Option (Value F) → Result (List (String × F))
  decoded path none = refused (path ∷ " is not readable JSON" ∷ [])
  decoded path (some document) = parse_profile document

  abbrev too_large : String → Result (List (String × F))
  too_large path = refused (path ∷ " exceeds 16384 bytes" ∷ [])

  unfoldable pub load_profile : String → ProfileFile → Result (List (String × F))
  load_profile path absent = ok []
  load_profile path (unreadable size) =
      if ltb max_profile_bytes size
      then too_large path
      else refused (path ∷ " is not readable JSON" ∷ [])
  load_profile path (holds contents) =
      if ltb max_profile_bytes (platform.utf8_length contents)
      then too_large path
      else decoded path (codec.decode contents)

module _ {F : Type 0} ⦃rt : Runtime F⦄ where
  abbrev pub requested_limits : SafetyLimits F → List (String × Option F)
  requested_limits requested =
      ("max_linear_speed", some requested.max_linear_speed)
      ∷ ("max_angular_speed", some requested.max_angular_speed)
      ∷ ("obstacle_stop_distance", some requested.obstacle_stop_distance)
      ∷ ("lateral_stop_distance", requested.lateral_stop_distance)
      ∷ ("emergency_stop_distance", some requested.emergency_stop_distance)
      ∷ []

  abbrev some_or : Option F → Option F → Option F
  some_or none d = d
  some_or (some x) d = some x

  -- `replace(requested, **values)`
  abbrev pub replaced : List (String × F) → SafetyLimits F → SafetyLimits F
  replaced values requested = record requested {
    max_linear_speed = or_else (lookup "max_linear_speed" values) requested.max_linear_speed;
    max_angular_speed = or_else (lookup "max_angular_speed" values) requested.max_angular_speed;
    obstacle_stop_distance =
        or_else (lookup "obstacle_stop_distance" values) requested.obstacle_stop_distance;
    lateral_stop_distance =
        some_or (lookup "lateral_stop_distance" values) requested.lateral_stop_distance;
    emergency_stop_distance =
        or_else (lookup "emergency_stop_distance" values) requested.emergency_stop_distance;
  }

  abbrev pub folded : ProfileOutcome F → SafetyLimits F → SafetyLimits F
  folded outcome requested = elim outcome.adjustments [
    | [] ↦ requested
    | a ∷ rest ↦ replaced outcome.values requested
  ]

  -- The limits under a profile that was loaded.
  unfoldable pub constrained_by : List (String × F) → SafetyLimits F → SafetyLimits F
  constrained_by [] requested = requested
  constrained_by ((name, x) ∷ limits) requested =
      folded (apply_profile ((name, x) ∷ limits) (requested_limits requested)) requested

module _ {F : Type 0} ⦃rt : Runtime F⦄ ⦃platform : Platform⦄ ⦃codec : ProfileCodec F⦄ where
  unfoldable pub constrained_by_site :
      String → ProfileFile → SafetyLimits F → Result (SafetyLimits F)
  constrained_by_site path file requested = do
    profile ← load_profile path file
    ok (constrained_by profile requested)
