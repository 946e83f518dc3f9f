-- ===== src/Mission/Approval/Missions.antt =====
-- A mission stays on track under every sequence of calls, and what follows for its human gates.
use flyto_robotics.Prelude.{
  ◌≡◌, refl, sym, ap, ◌∙◌, ◌⊎◌, inl, inr, Bool, Bool-cases, not, ◌||◌, Option, Option-cases, none,
  some, String, List, [], ◌∷◌, if_ind, arith, lookup, insert, lookup-insert, leb, eq_iff,
}
use mathlib.Core.Path.{subst}
use flyto_robotics.Capabilities.{safe_text}
use flyto_robotics.Python.{Runtime, Result, continue, ◌>>=◌}
use flyto_robotics.Workflow.{PrimitiveKind, ask_human, WorkflowStep}
use flyto_robotics.Mission.Controller.{
  Command, Controller, HumanDecision, terminal, active_step, step_or_raise, current_step,
  transition, record_full, record_event, elapsed, cancel_for_safety, cancelled_for,
  submit_human_decision, submit_active, submit_at, store_decision, expects,
  record_human_decision_rejection,
}
use flyto_robotics.Mission.Waiting.{approval_of}
use flyto_robotics.Mission.Tick.{
  is_accepted, TickInput, begin, tick_at, tick_step, tick_running, tick,
}
use flyto_robotics.Mission.Frame.{Core, core}
use flyto_robotics.Mission.Settles.{Settles, same_step, stays, advances, fails}
use flyto_robotics.Mission.Steps.{
  Call, ticks, cancels, fails_for, decides, rejects, call, calls, Settles-tick_at,
}
use flyto_robotics.Mission.Approval.{HasApproval, IsApproved, IsOnTrack}
use flyto_robotics.Mission.Approval.Gate.{Halts, stays_put, gives_up, tick_at_gate}
use flyto_robotics.Mission.Approval.Invariant.{
  IsOnTrack-Quiet, IsOnTrack-ended, IsOnTrack-fail, IsOnTrack-first, IsOnTrack-next,
}

ask_human_or_not : (k : PrimitiveKind) → (k ≡ ask_human) ⊎ (k ≡ ask_human → ⊥)
ask_human_or_not ask_human = inl refl
ask_human_or_not _ = inr (λ e. cc)

module _ {F : Type 0} ⦃rt : Runtime F⦄ where
  IsOnTrack-Halts : (c d : Controller F) → Halts c d → IsOnTrack (core c) → IsOnTrack (core d)
  IsOnTrack-Halts c d (stays_put q) h = IsOnTrack-Quiet c d q h
  IsOnTrack-Halts c d (gives_up m now reason q e) h =
      subst (λ (x : Controller F). IsOnTrack (core x)) (sym e)
        (IsOnTrack-fail reason now m (IsOnTrack-Quiet c m q h))

  IsOnTrack-Settles :
      (c d : Controller F) (step : WorkflowStep F)
      → active_step c ≡ some step
      → IsApproved c.human_decisions step
      → Settles c d
      → IsOnTrack (core c)
      → IsOnTrack (core d)
  IsOnTrack-Settles c d step a ok_step (stays q) h = IsOnTrack-Quiet c d q h
  IsOnTrack-Settles c d step a ok_step (fails m now reason q e) h =
      subst (λ (x : Controller F). IsOnTrack (core x)) (sym e)
        (IsOnTrack-fail reason now m (IsOnTrack-Quiet c m q h))
  IsOnTrack-Settles c d step a ok_step (advances m now q e) h =
      subst (λ (x : Controller F). IsOnTrack (core x)) (sym e)
        (IsOnTrack-next now m step (same_step c m q ∙ a)
          (subst (λ ds. IsApproved ds step) (sym (ap (λ (k : Core F). k.human_decisions) q.same))
            ok_step)
          (IsOnTrack-Quiet c m q h))

  IsOnTrack-tick_at :
      (t : TickInput F) (c : Controller F) (step : WorkflowStep F)
      → active_step c ≡ some step
      → IsOnTrack (core c)
      → IsOnTrack (core (tick_at t step c).1)
  IsOnTrack-tick_at t c step a h = elim (ask_human_or_not step.kind) [
    | inr other ↦
        IsOnTrack-Settles c _ step a (λ e. absurd (other e)) ((Settles-tick_at t step).at c) h
    | inl gate ↦ elim (tick_at_gate t step c gate a) [
      | inl yea ↦ IsOnTrack-Settles c _ step a (λ e. yea) ((Settles-tick_at t step).at c) h
      | inr halts ↦ IsOnTrack-Halts c _ halts h
    ]
  ]

  ticked :
      (t : TickInput F) (o : Option (WorkflowStep F)) (c : Controller F)
      → active_step c ≡ o
      → IsOnTrack (core c)
      → IsOnTrack (core (continue (step_or_raise o c).0 (tick_at t) (step_or_raise o c).1).1)
  unfolding step_or_raise
  ticked t none c a h = h
  ticked t (some step) c a h = IsOnTrack-tick_at t c step a h

  IsOnTrack-begin :
      (now : F) (c : Controller F) → IsOnTrack (core c) → IsOnTrack (core (begin now c))
  unfolding begin
  IsOnTrack-begin now c h = elim (Bool-cases (is_accepted c.state)) [
    | inl fresh ↦ simp fresh (IsOnTrack-first now c (h.unstarted fresh) h)
    | inr begun ↦ simp begun h
  ]

  IsOnTrack-tick_running :
      (t : TickInput F) (c : Controller F)
      → IsOnTrack (core c)
      → IsOnTrack (core (tick_running t c).1)
  unfolding tick_running tick_step current_step ◌>>=◌
  IsOnTrack-tick_running t c h =
      ticked t (active_step (begin t.now c)) (begin t.now c) refl (IsOnTrack-begin t.now c h)

  IsOnTrack-tick :
      (t : TickInput F) (c : Controller F) → IsOnTrack (core c) → IsOnTrack (core (tick t c).1)
  unfolding tick
  IsOnTrack-tick t c h =
      let P : Result (Command F) × Controller F → Type 0 = λ r. IsOnTrack (core r.1) in
      if_ind P (terminal c) h (
        if_ind P (rt.lt c.job.safety.mission_timeout_seconds (elapsed c t.now))
          (IsOnTrack-fail "mission_timeout" t.now c h) (IsOnTrack-tick_running t c h))

  IsOnTrack-cancel :
      (now : F) (reason : String) (c : Controller F)
      → IsOnTrack (core c)
      → IsOnTrack (core (cancel_for_safety now reason c).1)
  unfolding cancel_for_safety cancelled_for transition record_full
  IsOnTrack-cancel now reason c h = elim (Bool-cases (safe_text reason)) [
    | inl safe ↦ rw safe (
        if_ind (λ (d : Controller F). IsOnTrack (core d)) (not (terminal c))
          (IsOnTrack-ended (core c) _ refl refl refl refl refl h) h)
    | inr unsafe ↦ rw unsafe h
  ]

  IsOnTrack-reject :
      (reason : String) (now : F) (c : Controller F)
      → IsOnTrack (core c)
      → IsOnTrack (core (record_human_decision_rejection reason now c))
  unfolding record_human_decision_rejection record_event record_full
  IsOnTrack-reject reason now c h =
      if_ind (λ (d : Controller F). IsOnTrack (core d))
        (terminal c || leb 20 c.human_decision_rejection_count) h
        (record {
          working = h.working;
          unstarted = h.unstarted;
          finished = h.finished;
          within = h.within;
          approved = h.approved;
        })

  -- A decision under a new identifier leaves every other decision as it was.
  HasApproval-insert :
      (approval_id : String) (decision : HumanDecision F) (ds : List (String × HumanDecision F))
      (step : WorkflowStep F)
      → lookup approval_id ds ≡ none
      → HasApproval ds step
      → HasApproval (insert approval_id decision ds) step
  HasApproval-insert approval_id decision ds step new_id (d, found, yea) = (
    d,
    ground (
      arith,
      lookup-insert approval_id (approval_of step) decision ds,
      eq_iff approval_id (approval_of step),
    ),
    yea,
  )

  IsOnTrack-submit_at :
      (step : WorkflowStep F) (approval_id : String) (approved : Bool) (actor_id : String) (now : F)
      (c : Controller F)
      → IsOnTrack (core c)
      → IsOnTrack (core (submit_at step approval_id approved actor_id now c).1)
  unfolding submit_at store_decision record_full
  IsOnTrack-submit_at step approval_id approved actor_id now c h =
      elim (Option-cases (lookup approval_id c.human_decisions)) [
        | inr (old, e) ↦ rw e (
            if_ind (λ (r : Result Unit × Controller F). IsOnTrack (core r.1))
              (not (expects step approval_id)) h h)
        | inl e ↦ rw e (
            if_ind (λ (r : Result Unit × Controller F). IsOnTrack (core r.1))
              (not (expects step approval_id)) h
              (record {
                working = h.working;
                unstarted = h.unstarted;
                finished = h.finished;
                within = h.within;
                approved = λ n s at_n lt gate.
                    HasApproval-insert approval_id _ c.human_decisions s e
                      (h.approved n s at_n lt gate);
              }))
      ]

  IsOnTrack-submit_active :
      (o : Option (WorkflowStep F)) (approval_id : String) (approved : Bool) (actor_id : String)
      (now : F) (c : Controller F)
      → IsOnTrack (core c)
      → IsOnTrack (core (submit_active o approval_id approved actor_id now c).1)
  unfolding submit_active
  IsOnTrack-submit_active none approval_id approved actor_id now c h = h
  IsOnTrack-submit_active (some step) approval_id approved actor_id now c h =
      IsOnTrack-submit_at step approval_id approved actor_id now c h

  IsOnTrack-submit :
      (approval_id : String) (approved : Bool) (actor_id : String) (now : F) (c : Controller F)
      → IsOnTrack (core c)
      → IsOnTrack (core (submit_human_decision approval_id approved actor_id now c).1)
  unfolding submit_human_decision
  IsOnTrack-submit approval_id approved actor_id now c h =
      let P : Result Unit × Controller F → Type 0 = λ r. IsOnTrack (core r.1) in
      if_ind P (terminal c) h (
        if_ind P (not (safe_text approval_id)) h (
          if_ind P (not (safe_text actor_id)) h
            (IsOnTrack-submit_active (active_step c) approval_id approved actor_id now c h)))

  IsOnTrack-call :
      (e : Call F) (c : Controller F) → IsOnTrack (core c) → IsOnTrack (core (call e c))
  unfolding call
  IsOnTrack-call (ticks t) c h = IsOnTrack-tick t c h
  IsOnTrack-call (cancels now reason) c h = IsOnTrack-cancel now reason c h
  IsOnTrack-call (fails_for reason now) c h = IsOnTrack-fail reason now c h
  IsOnTrack-call (decides approval_id approved actor_id now) c h =
      IsOnTrack-submit approval_id approved actor_id now c h
  IsOnTrack-call (rejects reason now) c h = IsOnTrack-reject reason now c h

  pub IsOnTrack-calls :
      (es : List (Call F)) (c : Controller F) → IsOnTrack (core c) → IsOnTrack (core (calls es c))
  unfolding calls
  IsOnTrack-calls [] c h = h
  IsOnTrack-calls (e ∷ es) c h = IsOnTrack-calls es (call e c) (IsOnTrack-call e c h)
