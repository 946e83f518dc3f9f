-- ===== src/Mission/Steps.antt =====
-- The controller of mission.py under any sequence of calls, and what a call does to an ended mission.
pub mod Trail
use flyto_robotics.Prelude.{
  ℕ, String, ◌≡◌, refl, sym, ap, ◌∙◌, Bool, true, false, not, Bool-cases, inl, inr, Option, none,
  some, List, [], ◌∷◌, ◌++◌, if_ind, if_true, if◌then◌else◌, is_some, lookup, arith, length, ◌≤◌,
  ◌⊎◌, leb, ◌||◌,
}
use mathlib.Core.Path.{subst}
use mathlib.Core.List.{append-nil}
use flyto_robotics.Prelude.Int.{pos, ◌+ℤ◌}
use flyto_robotics.Python.{Runtime, Result, ok, raised, Action, run, ◌>>=◌}
use flyto_robotics.Python.Relations.{Respects}
use flyto_robotics.Capabilities.{safe_text}
use flyto_robotics.Contracts.{DeliveryJob}
use flyto_robotics.SemanticMap.Store.{SemanticLocationStore}
use flyto_robotics.Workflow.{WorkflowStep, WorkflowPlan, MissionState, completed, failed, cancelled}
use flyto_robotics.Mission.Controller.{
  elapsed, start_or_complete, Controller, Command, MissionEvent, terminal, is_terminal, new, fail,
  cancelled_for, cancel_for_safety, transition, record_full, record_event, start_primitive,
  start_next_step, active_step, step_at, submit_human_decision, submit_at, store_decision, expects,
  record_human_decision_rejection,
}
use flyto_robotics.Mission.Tick.{
  is_accepted, TickInput, tick, tick_running, tick_at, tick_step, begin,
}
use flyto_robotics.Mission.Frame.{
  Core, core, Extends, Extends-refl, Extends-trans, IsNumbered, IsNumbered-append, Quiet,
  Extends-record_full,
}
use flyto_robotics.Mission.Settles.{Settles, stays, advances, fails, settle_rules}
use flyto_robotics.Mission.Settles.Perform.{Settles-perform}

-- One call of the controller's interface.
pub data Call (F : Type 0) : Type 0 where
  ticks : TickInput F → Call F
  cancels : (now : F) (reason : String) → Call F
  fails_for : (reason : String) (now : F) → Call F
  decides : (approval_id : String) (approved : Bool) (actor_id : String) (now : F) → Call F
  rejects : (reason : String) (now : F) → Call F

module _ {F : Type 0} ⦃rt : Runtime F⦄ where
  unfoldable pub call : Call F → Controller F → Controller F
  call (ticks t) c = (tick t c).1
  call (cancels now reason) c = (cancel_for_safety now reason c).1
  call (fails_for reason now) c = (fail reason now c).1
  call (decides approval_id approved actor_id now) c =
      (submit_human_decision approval_id approved actor_id now c).1
  call (rejects reason now) c = record_human_decision_rejection reason now c

  unfoldable pub calls : List (Call F) → Controller F → Controller F
  calls [] c = c
  calls (e ∷ es) c = calls es (call e c)

  tick-terminal : (t : TickInput F) (c : Controller F) → terminal c ≡ true → (tick t c).1 ≡ c
  unfolding tick
  tick-terminal t c h =
      ap (λ (r : Result (Command F) × Controller F). r.1) (if_true (terminal c) _ _ h)

  fail-terminal :
      (reason : String) (now : F) (c : Controller F) → terminal c ≡ true → (fail reason now c).1 ≡ c
  unfolding fail
  fail-terminal reason now c h = ground arith

  cancel-terminal :
      (now : F) (reason : String) (c : Controller F)
      → terminal c ≡ true
      → (cancel_for_safety now reason c).1 ≡ c
  unfolding cancel_for_safety cancelled_for
  cancel-terminal now reason c h = ground arith

  submit-terminal :
      (approval_id : String) (approved : Bool) (actor_id : String) (now : F) (c : Controller F)
      → terminal c ≡ true
      → (submit_human_decision approval_id approved actor_id now c).1 ≡ c
  unfolding submit_human_decision
  submit-terminal approval_id approved actor_id now c h =
      ap (λ (r : Result Unit × Controller F). r.1) (if_true (terminal c) _ _ h)

  reject-terminal :
      (reason : String) (now : F) (c : Controller F)
      → terminal c ≡ true
      → record_human_decision_rejection reason now c ≡ c
  unfolding record_human_decision_rejection
  reject-terminal reason now c h = ground arith

  -- An ended mission is left as it is by every call.
  pub call-terminal : (e : Call F) (c : Controller F) → terminal c ≡ true → call e c ≡ c
  unfolding call
  call-terminal (ticks t) c h = tick-terminal t c h
  call-terminal (cancels now reason) c h = cancel-terminal now reason c h
  call-terminal (fails_for reason now) c h = fail-terminal reason now c h
  call-terminal (decides approval_id approved actor_id now) c h =
      submit-terminal approval_id approved actor_id now c h
  call-terminal (rejects reason now) c h = reject-terminal reason now c h

  -- A mission that has ended is left exactly as it is by any sequence of calls.
  pub calls-terminal : (es : List (Call F)) (c : Controller F) → terminal c ≡ true → calls es c ≡ c
  unfolding calls
  calls-terminal [] c h = refl
  calls-terminal (e ∷ es) c h = rw (call-terminal e c h) (calls-terminal es c h)

  pub Settles-tick_at :
      (t : TickInput F) (step : WorkflowStep F) → Respects Settles (tick_at t step)
  unfolding tick_at
  Settles-tick_at t step = search (settle_rules, Settles-perform) depth 12

  Settles-tick_step : (t : TickInput F) → Respects Settles (tick_step t)
  unfolding tick_step
  Settles-tick_step t = search (settle_rules, Settles-tick_at) depth 12

  -- A running tick starts the first step if none has started, and then settles.
  pub Settles-tick_running :
      (t : TickInput F) (c : Controller F) → Settles (begin t.now c) (tick_running t c).1
  unfolding tick_running ◌>>=◌
  Settles-tick_running t c = (Settles-tick_step t).at (begin t.now c)
