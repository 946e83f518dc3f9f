-- ===== src/Mission/Motion/Arithmetic.antt =====
-- mission.py: `normalize_angle`, `_clamp`, `relative_move_tolerance`, `relative_move_reached`, and the
-- numeric arguments of a step.
use flyto_robotics.Prelude.{String, Bool, if◌then◌else◌, or_else}
use flyto_robotics.Python.{
  Runtime, Value, null, number, fmin, fmax, sine, cosine, truthy, to_float, Result, ok,
}
use flyto_robotics.Python.Checks.{◌>>=◌}
use flyto_robotics.Workflow.{WorkflowStep, argument}

module _ {F : Type 0} ⦃rt : Runtime F⦄ where
  -- A trigonometric function of an infinite angle raises.
  unfoldable pub normalize_angle : F → Result F
  normalize_angle angle = do s ← sine angle; c ← cosine angle; ok (rt.atan2 s c)

  unfoldable pub clamp : F → F → F → F
  unfolding fmin fmax
  clamp value minimum maximum = fmax minimum (fmin maximum value)

  unfoldable pub relative_move_tolerance : F → F
  unfolding fmin fmax
  relative_move_tolerance distance =
      fmin (rt.decimal 3 2) (fmax (rt.decimal 1 3) (rt.div (rt.abs distance) (rt.decimal 100 1)))

  unfoldable pub relative_move_reached : F → F → Bool
  unfolding relative_move_tolerance
  relative_move_reached progress target =
      let tolerance = relative_move_tolerance target in
      if rt.lt (rt.decimal 0 1) target
      then rt.le (rt.sub target tolerance) progress
      else rt.le progress (rt.add target tolerance)

  -- `float(step.argument(name, default))`
  unfoldable pub float_argument : String → Value F → WorkflowStep F → Result F
  unfolding argument
  float_argument name default step = to_float (or_else (argument name step) default)

  abbrev or_zero : Value F → Value F
  or_zero v = if truthy v then v else number (rt.decimal 0 1)

  -- `float(step.argument(name) or 0.0)`
  unfoldable pub float_argument_or_zero : String → WorkflowStep F → Result F
  unfolding argument
  float_argument_or_zero name step = to_float (or_zero (or_else (argument name step) null))
