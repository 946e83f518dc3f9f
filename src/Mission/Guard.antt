-- ===== src/Mission/Guard.antt =====
-- mission.py: `_obstacle_guard`, `_raise_obstacle` and `_clear_obstacle`.
use flyto_robotics.Prelude.{
  String, Bool, true, false, not, ◌+◌, ◌&&◌, Option, none, some, [], ◌∷◌, if◌then◌else◌, or_else,
  format,
}
use flyto_robotics.Python.{Runtime, fmin}
use flyto_robotics.Contracts.{SafetyLimits}
use flyto_robotics.Mission.Ranges.{Intent, RangeField, RangeInput, as_field, blind_for, blocking}
use flyto_robotics.Mission.Controller.{Command, Controller, hold, record_event}

module _ {F : Type 0} ⦃rt : Runtime F⦄ where
  unfoldable pub raise_obstacle : F → String → Controller F → Command F × Controller F
  unfolding hold record_event
  raise_obstacle now detail c =
      let c' =
        if not c.obstacle_active
        then record_event now "obstacle_stop" detail
            (record c { obstacle_active = true; safety_stop_count = c.safety_stop_count + 1 })
        else c in
      (hold c' "obstacle_stop", c')

  unfoldable pub clear_obstacle : F → Controller F → Controller F
  unfolding record_event
  clear_obstacle now c =
      if c.obstacle_active
      then record_event now "path_clear" "range recovered above stop distance"
          (record c { obstacle_active = false })
      else c

  -- `math.isfinite(range) and range < limit`
  unfoldable pub nearer : F → F → Bool
  nearer range limit = rt.is_finite range && rt.lt range limit

  abbrev pub lateral_limit : SafetyLimits F → F
  lateral_limit limits = or_else limits.lateral_stop_distance limits.obstacle_stop_distance

  -- Why the guard stops this motion, if it does: its tests, in the order of the source.
  unfoldable pub obstruction : SafetyLimits F → RangeField F → Intent → Option String
  unfolding nearer blocking fmin blind_for
  obstruction limits field intent = elim (blind_for field intent) [
    | some sector ↦
        some (format ("cannot measure " ∷ sector ∷ "; refusing to move on an unread sector" ∷ []))
    | none ↦
        if nearer field.closest limits.emergency_stop_distance
        then some "closer than the emergency distance"
        else if not field.directional
        then (if nearer field.closest limits.obstacle_stop_distance
            then some "range below configured stop distance"
            else none)
        else if nearer (blocking field intent).0 limits.obstacle_stop_distance
        then some (format ("obstacle " ∷ (blocking field intent).1 ∷ []))
        else if nearer (fmin field.left field.right) (lateral_limit limits)
        then some "obstacle alongside"
        else none
  ]

  unfoldable pub act_on : Option String → F → Controller F → Option (Command F) × Controller F
  unfolding raise_obstacle clear_obstacle
  act_on (some detail) now c = let (command, c') = raise_obstacle now detail c in (some command, c')
  act_on none now c = (none, clear_obstacle now c)

  unfoldable pub obstacle_guard :
      RangeInput F → F → Intent → Controller F → Option (Command F) × Controller F
  unfolding obstruction act_on as_field
  obstacle_guard range now intent c =
      act_on (obstruction c.job.safety (as_field range) intent) now c
