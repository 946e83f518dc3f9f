-- ===== src/Mission/Safety.antt =====
-- When a tick of mission.py may move the robot: only behind an obstacle guard that found nothing in
-- the way of this motion.
pub mod Driving
pub mod Handlers
pub mod Stops
use flyto_robotics.Prelude.{
  ◌≡◌, refl, sym, ap, ◌∙◌, ◌⊎◌, inl, inr, Bool, true, false, Option, none, some, String,
  if◌then◌else◌, if_ind, str_eq,
}
use mathlib.Core.Path.{subst}
use flyto_robotics.Python.{
  null, number, fmin, fmax, Runtime, Exception, Result, ok, raised, Action, pure, raise, lift, gets,
  run, modify, unless_some, continue, ◌>>=◌,
}
pub use flyto_robotics.Python.Checks.{OkAnd}
use flyto_robotics.Python.Relations.{Respects}
use flyto_robotics.Contracts.{DeliveryJob, SafetyLimits}
use flyto_robotics.Workflow.{
  PrimitiveKind, navigate, move_relative, turn_relative, follow_line, navigate_to_location,
  WorkflowStep,
}
use flyto_robotics.Mission.Ranges.{
  Intent, forward_motion, reverse_motion, rotation, RangeField, RangeInput, as_field,
}
use flyto_robotics.Mission.Controller.{
  Command, Controller, hold, fail, complete_step, failure_of, step_failure, current_step,
  active_step, step_or_raise,
}
use flyto_robotics.Mission.Guard.{
  raise_obstacle, clear_obstacle, act_on, obstruction, obstacle_guard,
}
use flyto_robotics.Mission.Frame.{Core, core, Quiet}
use flyto_robotics.Mission.Settles.{same_step, Quiet-current_step}
use flyto_robotics.Mission.Settles.MotionHandlers.{Quiet-clear_obstacle}
use flyto_robotics.Mission.Motion.{
  float_argument, float_argument_or_zero, relative_move_reached, turn_reached,
}

module _ {F : Type 0} ⦃rt : Runtime F⦄ (job : DeliveryJob F) where
  -- A turn on the spot, or a drive ahead: a product of a speed up to the job's limit and of a factor
  -- of 0.15 at least.
  abbrev pub Advances : Command F → Type 0
  Advances command =
      (command.linear_x ≡ rt.decimal 0 1)
      ⊎ ((speed factor : F) × (command.linear_x
            ≡ rt.mul (fmin job.safety.max_linear_speed (fmax (rt.decimal 4 2) speed))
                (fmax (rt.decimal 15 2) factor)))

  -- The step's own speed up to the job's limit, slowed down to a quarter at most on a line that is
  -- seen, or at two fifths and up to 0.10 where the next color is sought.
  pub record Follows (step : WorkflowStep F) (command : Command F) : Type 0 where
    pub speed : F
    pub read : float_argument "speed" (number (rt.decimal 16 2)) step ≡ ok speed
    pub forth :
        ((factor : F) × (command.linear_x
            ≡ rt.mul (fmin job.safety.max_linear_speed speed) (fmax (rt.decimal 25 2) factor)))
        ⊎ (command.linear_x
            ≡ fmin
                (fmin (rt.decimal 10 2) job.safety.max_linear_speed)
                (rt.mul speed (rt.decimal 4 1)))

  -- A move by the step's own distance, which is negative if it goes back: what is left of it is not
  -- within the tolerance, and the command goes the way of what is left, up to the job's limit.
  pub record Displaces (step : WorkflowStep F) (back : Bool) (command : Command F) : Type 0 where
    pub asked : F
    pub target : F
    pub progress : F
    pub speed : F
    pub size : F
    pub given : float_argument_or_zero "distance_m" step ≡ ok asked
    pub way : rt.lt asked (rt.decimal 0 0) ≡ back
    pub read : float_argument "distance_m" null step ≡ ok target
    pub unreached : relative_move_reached progress target ≡ false
    pub toward :
        command.linear_x
        ≡ rt.copysign (fmin (fmin job.safety.max_linear_speed speed) size) (rt.sub target progress)

  -- A turn by the step's own angle on the spot, up to the job's limit.
  pub record Turns (step : WorkflowStep F) (command : Command F) : Type 0 where
    pub target : F
    pub turned : F
    pub speed : F
    pub size : F
    pub read : float_argument "yaw_delta_rad" null step ≡ ok target
    pub unreached : turn_reached target turned ≡ false
    pub in_place : command.linear_x ≡ rt.decimal 0 1
    pub toward :
        command.angular_z
        ≡ rt.copysign (fmin (fmin job.safety.max_angular_speed speed) size) (rt.sub target turned)

  -- The command is what a step of this kind makes of a motion; no other kind and motion go together.
  abbrev pub Makes : WorkflowStep F → PrimitiveKind → Intent → Command F → Type 0
  Makes step navigate forward_motion command = Advances command
  Makes step navigate_to_location forward_motion command = Advances command
  Makes step follow_line forward_motion command = Follows step command
  Makes step move_relative forward_motion command = Displaces step false command
  Makes step move_relative reverse_motion command = Displaces step true command
  Makes step turn_relative rotation command = Turns step command
  Makes step _ _ command = ⊥

module _ {F : Type 0} ⦃rt : Runtime F⦄ where
  abbrev pub IsStop : Command F → Type 0
  IsStop command = (command.linear_x ≡ rt.decimal 0 1) × (command.angular_z ≡ rt.decimal 0 1)

  -- A command that stops, or that makes a motion of the active step with nothing in its way.
  abbrev pub IsLicensed :
      DeliveryJob F → WorkflowStep F → RangeField F → PrimitiveKind → Command F → Type 0
  IsLicensed job active field kind command =
      IsStop command
      ⊎ ((intent : Intent) × Makes job active kind intent command
          × (obstruction job.safety field intent ≡ none))

  pub IsStop-hold : (c : Controller F) (reason : String) → IsStop (hold c reason)
  unfolding hold
  IsStop-hold c reason = (refl, refl)

  pub IsStop-complete_step :
      (now : F) (detail : String) (c : Controller F) → IsStop (complete_step now detail c).0
  unfolding complete_step
  IsStop-complete_step now detail c = (refl, refl)

  pub IsStop-fail : (reason : String) (now : F) (c : Controller F) → IsStop (fail reason now c).0
  unfolding fail
  IsStop-fail reason now c = (refl, refl)

  pub IsStop-failure_of :
      (step : WorkflowStep F) (reason : String) (now : F) (c : Controller F)
      → IsStop (failure_of step reason now c).0
  unfolding failure_of
  IsStop-failure_of step reason now c =
      if_ind (λ (r : Command F × Controller F). IsStop r.0)
        (str_eq step.on_failure "request_replan") (IsStop-fail _ now _) (IsStop-fail reason now c)

  pub IsStop-raise_obstacle :
      (now : F) (detail : String) (c : Controller F) → IsStop (raise_obstacle now detail c).0
  unfolding raise_obstacle
  IsStop-raise_obstacle now detail c = (refl, refl)

-- Every value that the method returns under this job, at this step, is in `P`.
pub record Yields {F A : Type 0} (job : DeliveryJob F) (active : WorkflowStep F) (P : A → Type 0)
    (m : Action (Controller F) A) : Type 0 where
  pub at : (c : Controller F) → c.job ≡ job → active_step c ≡ some active → OkAnd P (m c).0

OkAnd-weaken :
    {A : Type 0} (P Q : A → Type 0) (r : Result A) → ((a : A) → P a → Q a) → OkAnd P r → OkAnd Q r
OkAnd-weaken P Q (ok a) h k = h a k
OkAnd-weaken P Q (raised e) h k = tt

module _ {F A : Type 0} {job : DeliveryJob F} {active : WorkflowStep F} {P : A → Type 0} where
  pub Yields-pure : (a : A) → P a → Yields job active P (pure a)
  Yields-pure a h = record { at = λ c e a. h }

  pub Yields-raise : (e : Exception) → Yields job active P (raise e)
  Yields-raise e = record { at = λ c _ _. tt }

  pub Yields-gets :
      (f : Controller F → A) → ((c : Controller F) → P (f c)) → Yields job active P (gets f)
  Yields-gets f h = record { at = λ c e a. h c }

  pub Yields-run :
      (f : Controller F → A × Controller F)
      → ((c : Controller F) → P (f c).0)
      → Yields job active P (run f)
  Yields-run f h = record { at = λ c e a. h c }

  pub Yields-if :
      (b : Bool) (m n : Action (Controller F) A)
      → Yields job active P m
      → Yields job active P n
      → Yields job active P (if b then m else n)
  Yields-if true m n h k = h
  Yields-if false m n h k = k

  -- The branch that is taken knows its test.
  pub Yields-test :
      (b : Bool) (m n : Action (Controller F) A)
      → Yields job active P m
      → (b ≡ false → Yields job active P n)
      → Yields job active P (if b then m else n)
  Yields-test true m n h k = h
  Yields-test false m n h k = k refl

  pub Yields-weaken :
      (Q : A → Type 0) (m : Action (Controller F) A)
      → ((a : A) → P a → Q a)
      → Yields job active P m
      → Yields job active Q m
  Yields-weaken Q m h k = record { at = λ c e a. OkAnd-weaken P Q (m c).0 h (k.at c e a) }

module _ {F A B : Type 0} ⦃rt : Runtime F⦄ {job : DeliveryJob F} {active : WorkflowStep F}
    {P : B → Type 0} where
  Yields-continue :
      (r : Result A) (f : A → Action (Controller F) B)
      → ((a : A) → Yields job active P (f a))
      → (c : Controller F) → c.job ≡ job
      → active_step c ≡ some active
      → OkAnd P (continue r f c).0
  Yields-continue (ok a) f h c e s = (h a).at c e s
  Yields-continue (raised x) f h c e s = tt

  pub Yields-bind :
      (m : Action (Controller F) A) (f : A → Action (Controller F) B)
      → Respects Quiet m
      → ((a : A) → Yields job active P (f a))
      → Yields job active P (m >>= f)
  unfolding ◌>>=◌
  Yields-bind m f quiet h = record {
    at = λ c e s.
        Yields-continue (m c).0 f h (m c).1 (ap (λ (k : Core F). k.job) (quiet.at c).same ∙ e)
          (same_step c (m c).1 (quiet.at c) ∙ s);
  }

  -- What was read from the step or computed is known behind it.
  pub Yields-lift :
      (r : Result A) (f : A → Action (Controller F) B)
      → ((a : A) → r ≡ ok a → Yields job active P (f a))
      → Yields job active P (lift r >>= f)
  unfolding ◌>>=◌
  Yields-lift (ok a) f h = record { at = (h a refl).at }
  Yields-lift (raised x) f h = record { at = λ c e s. tt }

module _ {F B : Type 0} ⦃rt : Runtime F⦄ {job : DeliveryJob F} {active : WorkflowStep F}
    {P : B → Type 0} where
  -- The limits that a method reads are those of the job.
  pub Yields-safety :
      (f : SafetyLimits F → Action (Controller F) B)
      → Yields job active P (f job.safety)
      → Yields job active P (gets (λ c. c.job.safety) >>= f)
  unfolding ◌>>=◌
  Yields-safety f h = record {
    at = λ c e s. subst (λ (j : DeliveryJob F). OkAnd P (f j.safety c).0) (sym e) (h.at c e s);
  }

  -- The step that a method reads is the active one.
  pub Yields-current_step :
      (f : WorkflowStep F → Action (Controller F) B)
      → Yields job active P (f active)
      → Yields job active P (current_step >>= f)
  unfolding ◌>>=◌ current_step step_or_raise
  Yields-current_step f h = record {
    at = λ c e s.
        subst
          (λ (o : Option (WorkflowStep F)).
            OkAnd P (continue (step_or_raise o c).0 f (step_or_raise o c).1).0)
          (sym s) (h.at c e s);
  }

module _ {F : Type 0} ⦃rt : Runtime F⦄ {job : DeliveryJob F} {active : WorkflowStep F}
    {P : Command F → Type 0} where
  pub Yields-step_failure :
      (stops : (command : Command F) → IsStop command → P command) (reason : String) (now : F)
      → Yields job active P (step_failure reason now)
  unfolding step_failure
  Yields-step_failure stops reason now =
      Yields-bind current_step (λ step. run (failure_of step reason now)) Quiet-current_step
        (λ step. Yields-run _ (λ c. stops _ (IsStop-failure_of step reason now c)))

  guarded :
      (o : Option String) (now : F) (rest : Action (Controller F) (Command F)) (c : Controller F)
      → c.job ≡ job
      → active_step c ≡ some active
      → ((command : Command F) → IsStop command → P command)
      → (o ≡ none → Yields job active P rest)
      → OkAnd P ((run (act_on o now) >>= λ g. unless_some g rest) c).0
  unfolding act_on ◌>>=◌
  guarded none now rest c e s stops free =
      (free refl).at (clear_obstacle now c)
        (ap (λ (k : Core F). k.job) (Quiet-clear_obstacle now c).same ∙ e)
        (same_step c (clear_obstacle now c) (Quiet-clear_obstacle now c) ∙ s)
  guarded (some detail) now rest c e s stops free = stops _ (IsStop-raise_obstacle now detail c)

  -- Behind the guard the rest is free; where the guard stops, it is a stop.
  pub Yields-guard :
      (range : RangeInput F) (now : F) (intent : Intent) (rest : Action (Controller F) (Command F))
      → ((command : Command F) → IsStop command → P command)
      → (obstruction job.safety (as_field range) intent ≡ none → Yields job active P rest)
      → Yields job active P (run (obstacle_guard range now intent) >>= λ g. unless_some g rest)
  unfolding obstacle_guard ◌>>=◌
  Yields-guard range now intent rest stops free = record {
    at = λ c e s.
        guarded (obstruction c.job.safety (as_field range) intent) now rest c e s stops (λ h.
          free
            (ap (λ (j : DeliveryJob F). obstruction j.safety (as_field range) intent) (sym e) ∙ h));
  }
