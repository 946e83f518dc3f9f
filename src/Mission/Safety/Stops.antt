-- ===== src/Mission/Safety/Stops.antt =====
-- The headline theorems on motion: what a tick may command, and when it has to stop.
use flyto_robotics.Prelude.{
  ◌≡◌, ◌≢◌, ◌↔◌, refl, sym, ap, ◌∙◌, ◌⊎◌, inl, inr, true, false, Option, none, some, if_ind, arith,
  Option-cases, Bool-cases, contains,
}
use flyto_robotics.Python.{Runtime, fmin, Result, ok, raised, continue, ◌>>=◌, gets}
use flyto_robotics.Contracts.{DeliveryJob, SafetyLimits}
use flyto_robotics.Workflow.{WorkflowStep}
use flyto_robotics.Mission.Ranges.{
  Intent, forward_motion, reverse_motion, rotation, RangeField, as_field, blind_for, blocking,
}
use flyto_robotics.Mission.Controller.{
  Command, Controller, terminal, elapsed, active_step, step_or_raise, current_step,
}
use flyto_robotics.Mission.Guard.{nearer, lateral_limit, obstruction}
use flyto_robotics.Mission.Tick.{TickInput, begin, tick_at, tick_step, tick_running, tick}
use flyto_robotics.Mission.Settles.{Quiet-gets}
use flyto_robotics.Mission.Steps.Trail.{Trail-begin}
use flyto_robotics.Mission.Safety.{
  OkAnd, Makes, IsStop, IsLicensed, IsStop-fail, IsStop-hold, Yields, Yields-bind, Yields-if,
  Yields-step_failure,
}
use flyto_robotics.Mission.Safety.Handlers.{Licensed-perform}

module _ {F : Type 0} ⦃rt : Runtime F⦄ where
  -- A command that stops, or that makes a motion of the active step with nothing in its way.
  abbrev pub MayCommand : TickInput F → Controller F → Command F → Type 0
  MayCommand t c command =
      IsStop command
      ⊎ ((step : WorkflowStep F) × (intent : Intent) × (active_step (begin t.now c) ≡ some step)
          × Makes c.job step step.kind intent command
          × (obstruction c.job.safety (as_field t.range) intent ≡ none))

  Licensed-tick_at :
      (job : DeliveryJob F) (t : TickInput F) (step : WorkflowStep F)
      → Yields job step (IsLicensed job step (as_field t.range) step.kind) (tick_at t step)
  unfolding tick_at
  Licensed-tick_at job t step =
      Yields-bind (gets (λ c. c.state_entered_at)) _ (Quiet-gets _) λ entered.
        Yields-if _ _ _ (Yields-step_failure (λ command. inl) _ t.now)
          (Licensed-perform job step step.kind step t)

  licensed_step :
      (t : TickInput F) (c d : Controller F) (o : Option (WorkflowStep F))
      → d.job ≡ c.job
      → active_step d ≡ o
      → d ≡ begin t.now c
      → OkAnd (MayCommand t c) (continue (step_or_raise o d).0 (tick_at t) (step_or_raise o d).1).0
  unfolding step_or_raise
  licensed_step t c d none job e b = tt
  licensed_step t c d (some step) job e b =
      weaken (tick_at t step d).0 ((Licensed-tick_at c.job t step).at d job e)
    where
      weaken :
          (r : Result (Command F))
          → OkAnd (IsLicensed c.job step (as_field t.range) step.kind) r
          → OkAnd (MayCommand t c) r
      weaken (raised x) h = tt
      weaken (ok command) (inl stop) = inl stop
      weaken (ok command) (inr (intent, makes, free)) =
          inr (step, intent, ap active_step (sym b) ∙ e, makes, free)

  MayCommand-tick_running :
      (t : TickInput F) (c : Controller F) → OkAnd (MayCommand t c) (tick_running t c).0
  unfolding tick_running tick_step current_step ◌>>=◌
  MayCommand-tick_running t c =
      licensed_step t c (begin t.now c) (active_step (begin t.now c)) (Trail-begin t.now c).job refl
        refl

  pub MayCommand-tick : (t : TickInput F) (c : Controller F) → OkAnd (MayCommand t c) (tick t c).0
  unfolding tick
  MayCommand-tick t c =
      let P : Result (Command F) × Controller F → Type 0 = λ r. OkAnd (MayCommand t c) r.0 in
      if_ind P (terminal c) (inl (IsStop-hold c "terminal")) (
        if_ind P (rt.lt c.job.safety.mission_timeout_seconds (elapsed c t.now))
          (inl (IsStop-fail "mission_timeout" t.now c)) (MayCommand-tick_running t c))

  -- The sectors that a motion needs to see: the one it drives into, or all four for a turn.
  abbrev pub Sees : RangeField F → Intent → Type 0
  Sees field forward_motion = contains "forward" field.blind ≡ false
  Sees field reverse_motion = contains "rear" field.blind ≡ false
  Sees field rotation =
      (contains "forward" field.blind ≡ false)
      × (contains "left" field.blind ≡ false)
      × (contains "right" field.blind ≡ false)
      × (contains "rear" field.blind ≡ false)

  -- The range that has to hold the stop distance: ahead, behind, or the least around a turn.
  abbrev pub range_of : RangeField F → Intent → F
  range_of field forward_motion = field.forward
  range_of field reverse_motion = field.rear
  range_of field rotation = fmin (fmin (fmin field.forward field.left) field.right) field.rear

  -- What the guard has measured where it lets a motion through.
  pub record IsClear (limits : SafetyLimits F) (field : RangeField F) (intent : Intent)
      : Type 0 where
    pub measured : Sees field intent
    pub no_emergency : nearer field.closest limits.emergency_stop_distance ≡ false
    pub anywhere :
        field.directional ≡ false → nearer field.closest limits.obstacle_stop_distance ≡ false
    pub in_the_way :
        field.directional ≡ true
        → nearer (range_of field intent) limits.obstacle_stop_distance ≡ false
    pub beside :
        field.directional ≡ true
        → nearer (fmin field.left field.right) (lateral_limit limits) ≡ false

  -- The tests of the guard behind the one for blind sectors.
  abbrev Holds : SafetyLimits F → RangeField F → Intent → Type 0
  Holds limits field intent =
      (nearer field.closest limits.emergency_stop_distance ≡ false)
      × (field.directional ≡ false → nearer field.closest limits.obstacle_stop_distance ≡ false)
      × (field.directional ≡ true
          → nearer (blocking field intent).0 limits.obstacle_stop_distance ≡ false)
      × (field.directional ≡ true
          → nearer (fmin field.left field.right) (lateral_limit limits) ≡ false)

  obstruction-Holds :
      (limits : SafetyLimits F) (field : RangeField F) (intent : Intent)
      → (obstruction limits field intent ≡ none)
        ↔ ((blind_for field intent ≡ none) × Holds limits field intent)
  unfolding obstruction
  obstruction-Holds limits field intent = elim (Option-cases (blind_for field intent)) [
    | inl sees ↦ (
      λ h. (sees, (ground arith, (λ d. ground arith), (λ d. ground arith), (λ d. ground arith))),
      λ k. elim (Bool-cases field.directional) [
        | inl d ↦ let way = k.1.2 d in let sides = k.1.3 d in ground arith
        | inr d ↦ let around = k.1.1 d in ground arith
      ],
    )
    | inr (sector, blind) ↦ (λ h. ground arith, λ k. ground arith)
  ]

  blind_for-Sees :
      (field : RangeField F) (intent : Intent) → (blind_for field intent ≡ none) ↔ Sees field intent
  unfolding blind_for
  blind_for-Sees field forward_motion = (λ h. ground arith, λ k. ground arith)
  blind_for-Sees field reverse_motion = (λ h. ground arith, λ k. ground arith)
  blind_for-Sees field rotation =
      (λ h. (ground arith, ground arith, ground arith, ground arith), λ k. ground arith)

  blocking-range_of :
      (field : RangeField F) (intent : Intent) → (blocking field intent).0 ≡ range_of field intent
  unfolding blocking
  blocking-range_of field forward_motion = refl
  blocking-range_of field reverse_motion = refl
  blocking-range_of field rotation = refl

  -- The guard finds no obstruction exactly if the sectors that the motion drives into, all four for a
  -- turn, are not blind, nothing is closer than the emergency distance, and the stop distances hold:
  -- without sectors, of the closest return; with sectors, of the range ahead, behind, or the least of
  -- the four for a turn, and of the nearer of the two sides.
  pub obstruction-IsClear :
      (limits : SafetyLimits F) (field : RangeField F) (intent : Intent)
      → (obstruction limits field intent ≡ none) ↔ IsClear limits field intent
  obstruction-IsClear limits field intent =
      let (opens, closes) = obstruction-Holds limits field intent in
      let (sees, blind) = blind_for-Sees field intent in
      let way = blocking-range_of field intent in
      (
        λ h.
            let (unblind, (near, around, ahead, sides)) = opens h in
            record {
              measured = sees unblind;
              no_emergency = near;
              anywhere = around;
              in_the_way = λ d. rw (sym way) (ahead d);
              beside = sides;
            },
        λ k. closes (
          blind k.measured,
          (k.no_emergency, k.anywhere, (λ d. rw way (k.in_the_way d)), k.beside),
        ),
      )

  IsStop-unless :
      (t : TickInput F) (c : Controller F) (r : Result (Command F))
      → ((intent : Intent) → obstruction c.job.safety (as_field t.range) intent ≢ none)
      → OkAnd (MayCommand t c) r
      → OkAnd IsStop r
  IsStop-unless t c (raised x) blocked h = tt
  IsStop-unless t c (ok command) blocked (inl stop) = stop
  IsStop-unless t c (ok command) blocked (inr (step, intent, _, _, free)) =
      absurd (blocked intent free)

  -- With a return closer than the emergency distance, no tick commands a motion, whatever the step.
  pub tick_emergency :
      (t : TickInput F) (c : Controller F)
      → nearer (as_field t.range).closest c.job.safety.emergency_stop_distance ≡ true
      → OkAnd IsStop (tick t c).0
  tick_emergency t c near =
      IsStop-unless t c (tick t c).0
        (λ intent free.
          let clear = (obstruction-IsClear c.job.safety (as_field t.range) intent).0 free in
          cc (near, clear.no_emergency))
        (MayCommand-tick t c)
