-- ===== src/Mission/Settles.antt =====
-- How a handler of mission.py ends: the controller is as it was but for its scratch fields and its
-- log, or the next step has started, or the mission has failed. With the rules that take a handler
-- apart.
pub mod MotionHandlers
pub mod LineHandlers
pub mod WaitingHandlers
pub mod Perform
use flyto_robotics.Prelude.{
  ◌≡◌, refl, ap, Bool, Option, none, some, if_ind, str_eq, if◌then◌else◌, String,
}
use flyto_robotics.Python.{
  Runtime, Exception, runtime_error, Result, ok, raised, Action, pure, raise, lift, gets, run,
  modify, unless_some, ◌>>=◌,
}
use flyto_robotics.Python.Relations.{
  Respects, Respects-if, Respects-run, Respects-pure, Respects-lift, Respects-gets, Respects-raise,
  Respects-unless_some, Respects-modify, Respects-bind,
}
use flyto_robotics.Workflow.{WorkflowStep}
use flyto_robotics.Mission.Controller.{
  Controller, fail, start_next_step, active_step, step_at, step_or_raise, current_step, Command,
  complete_step, failure_of, step_failure, record_event,
}
use flyto_robotics.Mission.Frame.{Core, Quiet, Quiet-refl, Quiet-trans, Quiet-record_event}

module _ {F : Type 0} ⦃rt : Runtime F⦄ where
  pub data Settles (c d : Controller F) : Type 0 where
    stays : Quiet c d → Settles c d
    advances : (m : Controller F) (now : F) → Quiet c m → d ≡ start_next_step now m → Settles c d
    fails :
        (m : Controller F) (now : F) (reason : String)
        → Quiet c m
        → d ≡ (fail reason now m).1
        → Settles c d

  pub same_step : (c d : Controller F) → Quiet c d → active_step d ≡ active_step c
  unfolding active_step
  same_step c d q = ap (λ (k : Core F). step_at k.workflow.steps k.step_index) q.same

  pub Settles-after : (b c d : Controller F) → Quiet b c → Settles c d → Settles b d
  Settles-after b c d h (stays k) = stays (Quiet-trans b c d h k)
  Settles-after b c d h (advances m now k e) = advances m now (Quiet-trans b c m h k) e
  Settles-after b c d h (fails m now reason k e) = fails m now reason (Quiet-trans b c m h k) e

  pub Settles-stays : (c : Controller F) → Settles c c
  Settles-stays c = stays (Quiet-refl c)

module _ {F A : Type 0} ⦃rt : Runtime F⦄ where
  pub Quiet-lift : (r : Result A) → Respects {S = Controller F} Quiet (lift r)
  Quiet-lift = Respects-lift Quiet-refl

  pub Quiet-gets : (f : Controller F → A) → Respects Quiet (gets f)
  Quiet-gets = Respects-gets Quiet-refl

  pub Settles-pure : (a : A) → Respects {S = Controller F} Settles (pure a)
  Settles-pure = Respects-pure Settles-stays

  pub Settles-gets : (f : Controller F → A) → Respects Settles (gets f)
  Settles-gets = Respects-gets Settles-stays

  pub Settles-raise : (e : Exception) → Respects {S = Controller F} Settles (raise {A = A} e)
  Settles-raise = Respects-raise Settles-stays

  pub Settles-if :
      (b : Bool) (m n : Action (Controller F) A)
      → Respects Settles m
      → Respects Settles n
      → Respects Settles (if b then m else n)
  Settles-if = Respects-if

  pub Settles-unless_some :
      (o : Option A) (m : Action (Controller F) A)
      → Respects Settles m
      → Respects Settles (unless_some o m)
  Settles-unless_some = Respects-unless_some Settles-stays

  pub Settles-run-Quiet :
      (f : Controller F → A × Controller F)
      → ((c : Controller F) → Quiet c (f c).1)
      → Respects Settles (run f)
  Settles-run-Quiet f h = record { at = λ c. stays (h c) }

module _ {F A B : Type 0} ⦃rt : Runtime F⦄ where
  pub Settles-bind :
      (m : Action (Controller F) A) (f : A → Action (Controller F) B)
      → Respects Quiet m
      → ((a : A) → Respects Settles (f a))
      → Respects Settles (m >>= f)
  Settles-bind = Respects-bind (λ s t. stays) Settles-after

module _ {F : Type 0} ⦃rt : Runtime F⦄ where
  Quiet-step_or_raise :
      (o : Option (WorkflowStep F)) (c : Controller F) → Quiet c (step_or_raise o c).1
  unfolding step_or_raise
  Quiet-step_or_raise none c = Quiet-refl c
  Quiet-step_or_raise (some step) c = Quiet-refl c

  pub Quiet-current_step : Respects {S = Controller F} Quiet current_step
  unfolding current_step
  Quiet-current_step = record { at = λ c. Quiet-step_or_raise (active_step c) c }

  pub Settles-complete_step :
      (now : F) (detail : String) → Respects Settles (run (complete_step now detail))
  unfolding complete_step
  Settles-complete_step now detail = record {
    at = λ c.
        advances (record_event now "primitive_completed" detail c) now
          (Quiet-record_event now "primitive_completed" detail c) refl;
  }

  Settles-failure_of :
      (step : WorkflowStep F) (reason : String) (now : F)
      → Respects Settles (run (failure_of step reason now))
  unfolding failure_of
  Settles-failure_of step reason now = record {
    at = λ c.
        if_ind (λ (r : Command F × Controller F). Settles c r.1)
          (str_eq step.on_failure "request_replan")
          (fails _ now _ (Quiet-record_event now "replan_requested" _ c) refl)
          (fails c now reason (Quiet-refl c) refl);
  }

  pub Settles-step_failure :
      (reason : String) (now : F) → Respects Settles (step_failure reason now)
  unfolding step_failure
  Settles-step_failure reason now =
      Settles-bind current_step (λ step. run (failure_of step reason now)) Quiet-current_step
        (λ step. Settles-failure_of step reason now)

pub ruleset settle_rules = (
  Quiet-lift, Quiet-gets, Quiet-current_step, Respects-run, Respects-modify, Settles-pure,
  Settles-gets, Settles-raise, Settles-if, Settles-unless_some, Settles-bind, Settles-complete_step,
  Settles-step_failure,
)
