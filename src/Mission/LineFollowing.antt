-- ===== src/Mission/LineFollowing.antt =====
-- mission.py: `_follow_line`.
use flyto_robotics.Prelude.{
  String, Bool, false, ◌&&◌, Option, none, some, [], ◌∷◌, if◌then◌else◌, or_else, is_some, format,
  str_eq,
}
use flyto_robotics.Python.{
  Runtime, Value, null, number, text, fmin, fmax, float_or, to_str, Action, pure, lift, run, gets,
  modify, unless_some, ◌>>=◌, ◌>>◌,
}
use flyto_robotics.LinePerception
use flyto_robotics.LinePerception.{LineScene, LineObservation}
use flyto_robotics.Workflow.{WorkflowStep, argument}
use flyto_robotics.Mission.Ranges.{RangeInput, forward_motion}
use flyto_robotics.Mission.Controller.{
  Command, Controller, current_step, complete_step, step_failure, record_event, hold,
}
use flyto_robotics.Mission.Guard.{obstacle_guard}
use flyto_robotics.Mission.Motion.{clamp, float_argument}

module _ {F : Type 0} where
  abbrev see : Option (LineScene F) → String → Option (LineObservation F)
  see none color = none
  see (some scene) color = LinePerception.get scene color

  abbrev is_visible : Option (LineObservation F) → Bool
  is_visible none = false
  is_visible (some o) = o.visible

-- What `_follow_line` reads from its step before it looks at the scene.
pub record Follow (F : Type 0) : Type 0 where
  pub step : WorkflowStep F
  pub color : String
  pub minimum_follow : F
  pub completion : String
  pub next_color : Option (Value F)

module _ {F : Type 0} ⦃rt : Runtime F⦄ where
  abbrev is_confident : Option (LineObservation F) → Bool
  is_confident none = false
  is_confident (some o) = o.visible && rt.le (rt.decimal 8 2) o.confidence

  abbrev sees_next : Option (LineScene F) → Option (Value F) → Bool
  sees_next scene (some (text color)) = is_confident (see scene color)
  sees_next scene _ = false

  unfoldable pub acquire : String → String → F → Controller F → Controller F
  acquire step_id color now c =
      let c' =
        if is_some c.line_acquired_at
        then c
        else record_event now "line_acquired" (format (step_id ∷ " acquired " ∷ color ∷ []))
            (record c { line_acquired_at = some now }) in
      record c' { line_last_seen_at = some now }

  unfoldable pub track : Follow F → LineObservation F → F → Action (Controller F) (Command F)
  track f target now = do
    modify (acquire f.step.step_id f.color now)
    safety ← gets (λ c. c.job.safety)
    state ← gets (λ c. c.state)
    argument_speed ← lift (float_argument "speed" (number (rt.decimal 16 2)) f.step)
    let speed = fmin safety.max_linear_speed argument_speed
    steering_gain ← lift (float_argument "steering_gain" (number (rt.decimal 12 1)) f.step)
    let angular =
        clamp (rt.mul (rt.neg steering_gain) target.lateral_error) (rt.neg safety.max_angular_speed)
          safety.max_angular_speed
    let slow_down =
        fmax (rt.decimal 25 2)
          (rt.sub (rt.decimal 10 1) (rt.mul (rt.abs target.lateral_error) (rt.decimal 7 1)))
    pure (record {
      linear_x = rt.mul speed slow_down;
      angular_z = angular;
      state = state;
      reason = format ("following_" ∷ f.color ∷ []);
    })

  -- No line has been acquired yet.
  unfoldable pub await_line : Follow F → F → Action (Controller F) (Command F)
  await_line f now = do
    entered ← gets (λ c. c.state_entered_at)
    if rt.lt (rt.decimal 20 1) (rt.sub now entered)
        then step_failure (format ("line_not_found:" ∷ f.color ∷ [])) now
        else gets (λ c. hold c (format ("waiting_for_" ∷ f.color ∷ [])))

  -- Creep ahead to find the next color.
  unfoldable pub search_next : Follow F → Action (Controller F) (Command F)
  search_next f = do
    safety ← gets (λ c. c.job.safety)
    state ← gets (λ c. c.state)
    speed ← lift (float_argument "speed" (number (rt.decimal 16 2)) f.step)
    pure (record {
      linear_x =
          fmin (fmin (rt.decimal 10 2) safety.max_linear_speed) (rt.mul speed (rt.decimal 4 1));
      angular_z = rt.decimal 0 1;
      state = state;
      reason = format ("searching_next_color:" ∷ to_str (or_else f.next_color null) ∷ []);
    })

  -- The line that was followed is out of sight.
  unfoldable pub lose_line : Follow F → F → F → Action (Controller F) (Command F)
  lose_line f followed_for now = do
    last_seen ← gets (λ c. c.line_last_seen_at)
    let lost_for = rt.sub now (float_or last_seen now)
    search_seconds ←
        lift (float_argument "transition_search_seconds" (number (rt.decimal 15 1)) f.step)
    if str_eq f.completion "next_color" && rt.lt lost_for search_seconds
        then search_next f
        else if rt.lt lost_for (rt.decimal 45 2)
        then gets (λ c. hold c (format ("line_temporarily_lost:" ∷ f.color ∷ [])))
        else if str_eq f.completion "line_end" && rt.le f.minimum_follow followed_for
        then run (complete_step now (format (f.step.step_id ∷ " reached end of " ∷ f.color ∷ [])))
        else step_failure (format ("line_lost:" ∷ f.color ∷ [])) now

  unfoldable pub without_line : Follow F → Option F → F → F → Action (Controller F) (Command F)
  without_line f none followed_for now = await_line f now
  without_line f (some acquired_at) followed_for now = lose_line f followed_for now

  unfoldable pub look_for_line :
      Follow F → Option (LineObservation F) → Option F → F → F → Action (Controller F) (Command F)
  look_for_line f none acquired_at followed_for now = without_line f acquired_at followed_for now
  look_for_line f (some target) acquired_at followed_for now =
      if target.visible then track f target now else without_line f acquired_at followed_for now

  abbrev followed : Option F → F → F
  followed none now = rt.decimal 0 1
  followed (some acquired_at) now = rt.sub now acquired_at

  unfoldable pub follow : Follow F → Option (LineScene F) → F → Action (Controller F) (Command F)
  follow f scene now = do
    acquired_at ← gets (λ c. c.line_acquired_at)
    let followed_for = followed acquired_at now
    if str_eq f.completion "next_color"
          && (is_some acquired_at
              && (rt.le f.minimum_follow followed_for && sees_next scene f.next_color))
        then run (
            complete_step now (
              format (
                f.step.step_id
                ∷ " observed transition to "
                ∷ to_str (or_else f.next_color null)
                ∷ [])))
        else look_for_line f (see scene f.color) acquired_at followed_for now

  unfoldable pub follow_line_step :
      Option (LineScene F) → RangeInput F → F → Action (Controller F) (Command F)
  follow_line_step scene range now = do
    guarded ← run (obstacle_guard range now forward_motion)
    unless_some guarded (do
      step ← current_step
      minimum_follow ← lift (float_argument "minimum_follow_seconds" (number (rt.decimal 5 1)) step)
      follow
          (record {
            step = step;
            color = to_str (or_else (argument "color" step) null);
            minimum_follow = minimum_follow;
            completion = to_str (or_else (argument "completion" step) (text "line_end"));
            next_color = argument "next_color" step;
          })
          scene now)
