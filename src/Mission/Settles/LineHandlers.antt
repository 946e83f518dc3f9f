-- ===== src/Mission/Settles/LineHandlers.antt =====
-- The line follower of mission.py settles.
use flyto_robotics.Prelude.{refl, Option, none, some, Bool-cases, is_some, inl, inr, String}
use native.Mathlib.Nat.{le_refl}
use flyto_robotics.Python.{Runtime}
use flyto_robotics.Python.Relations.{Respects}
use flyto_robotics.LinePerception.{LineScene, LineObservation}
use flyto_robotics.Mission.Ranges.{RangeInput}
use flyto_robotics.Mission.Controller.{Controller}
use flyto_robotics.Mission.LineFollowing.{
  Follow, acquire, track, await_line, search_next, lose_line, without_line, look_for_line, follow,
  follow_line_step,
}
use flyto_robotics.Mission.Frame.{Quiet, Quiet-trans, Quiet-write, Quiet-write_event}
use flyto_robotics.Mission.Settles.{Settles, settle_rules}
use flyto_robotics.Mission.Settles.MotionHandlers.{Quiet-obstacle_guard}

module _ {F : Type 0} ⦃rt : Runtime F⦄ where
  pub Quiet-acquire :
      (step_id color : String) (now : F) (c : Controller F) → Quiet c (acquire step_id color now c)
  unfolding acquire
  Quiet-acquire step_id color now c = elim (Bool-cases (is_some c.line_acquired_at)) [
    | inl had ↦ simp had (Quiet-write c _ refl refl (le_refl _))
    | inr new ↦ simp new (
        Quiet-trans c _ _ (Quiet-write_event now "line_acquired" _ c _ refl refl (le_refl _))
          (Quiet-write _ _ refl refl (le_refl _)))
  ]

  pub Settles-track :
      (f : Follow F) (target : LineObservation F) (now : F) → Respects Settles (track f target now)
  unfolding track
  Settles-track f target now = search (settle_rules, Quiet-acquire) depth 16

  pub Settles-await_line : (f : Follow F) (now : F) → Respects Settles (await_line f now)
  unfolding await_line
  Settles-await_line f now = search settle_rules depth 12

  pub Settles-search_next : (f : Follow F) → Respects Settles (search_next f)
  unfolding search_next
  Settles-search_next f = search settle_rules depth 12

  pub Settles-lose_line :
      (f : Follow F) (followed_for now : F) → Respects Settles (lose_line f followed_for now)
  unfolding lose_line
  Settles-lose_line f followed_for now = search (settle_rules, Settles-search_next) depth 14

  pub Settles-without_line :
      (f : Follow F) (o : Option F) (followed_for now : F)
      → Respects Settles (without_line f o followed_for now)
  unfolding without_line
  Settles-without_line f none followed_for now = Settles-await_line f now
  Settles-without_line f (some t) followed_for now = Settles-lose_line f followed_for now

  pub Settles-look_for_line :
      (f : Follow F) (target : Option (LineObservation F)) (o : Option F) (followed_for now : F)
      → Respects Settles (look_for_line f target o followed_for now)
  unfolding look_for_line
  Settles-look_for_line f none o followed_for now = Settles-without_line f o followed_for now
  Settles-look_for_line f (some target) o followed_for now =
      search (settle_rules, Settles-track, Settles-without_line)

  pub Settles-follow :
      (f : Follow F) (scene : Option (LineScene F)) (now : F)
      → Respects Settles (follow f scene now)
  unfolding follow
  Settles-follow f scene now = search (settle_rules, Settles-look_for_line) depth 12

  pub Settles-follow_line_step :
      (scene : Option (LineScene F)) (range : RangeInput F) (now : F)
      → Respects Settles (follow_line_step scene range now)
  unfolding follow_line_step
  Settles-follow_line_step scene range now =
      search (settle_rules, Quiet-obstacle_guard, Settles-follow) depth 14
