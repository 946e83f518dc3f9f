-- ===== src/Mission/Approval/Gate.antt =====
-- The step that waits for a human: without an approved decision it does not pass.
use flyto_robotics.Prelude.{
  ◌≡◌, refl, ap, ◌⊎◌, inl, inr, Bool, Bool-cases, true, false, Option, none, some, String,
  if◌then◌else◌, if_ind, str_eq, lookup,
}
use flyto_robotics.Python.{Runtime, run, continue, ◌>>=◌}
use flyto_robotics.Workflow.{PrimitiveKind, ask_human, WorkflowStep}
use flyto_robotics.Mission.Controller.{
  Command, Controller, HumanDecision, active_step, step_or_raise, current_step, failure_of,
  step_failure, fail,
}
use flyto_robotics.Mission.Waiting.{approval_of, act_on_decision, ask_human_step, request_approval}
use flyto_robotics.Mission.Tick.{TickInput, perform, tick_at}
use flyto_robotics.Mission.Frame.{Core, Quiet, Quiet-refl, Quiet-trans, Quiet-record_event}
use flyto_robotics.Mission.Settles.WaitingHandlers.{Quiet-request_approval}
use flyto_robotics.Mission.Approval.{HasApproval}

module _ {F : Type 0} ⦃rt : Runtime F⦄ where
  -- The ways for a tick to end without starting the next step.
  pub data Halts (c d : Controller F) : Type 0 where
    stays_put : Quiet c d → Halts c d
    gives_up :
        (m : Controller F) (now : F) (reason : String)
        → Quiet c m
        → d ≡ (fail reason now m).1
        → Halts c d

  Halts-failure_of :
      (step : WorkflowStep F) (reason : String) (now : F) (b c : Controller F)
      → Quiet b c
      → Halts b (failure_of step reason now c).1
  unfolding failure_of
  Halts-failure_of step reason now b c q =
      if_ind (λ (r : Command F × Controller F). Halts b r.1)
        (str_eq step.on_failure "request_replan")
        (gives_up _ now _ (Quiet-trans b c _ q (Quiet-record_event now "replan_requested" _ c))
          refl)
        (gives_up c now reason q refl)

  halted :
      (o : Option (WorkflowStep F)) (reason : String) (now : F) (b c : Controller F)
      → Quiet b c
      → Halts b
          (continue
            (step_or_raise o c).0
            (λ step. run (failure_of step reason now))
            (step_or_raise o c).1).1
  unfolding step_or_raise
  halted none reason now b c q = stays_put q
  halted (some step) reason now b c q = Halts-failure_of step reason now b c q

  pub Halts-step_failure :
      (reason : String) (now : F) (b c : Controller F)
      → Quiet b c
      → Halts b (step_failure reason now c).1
  unfolding step_failure current_step ◌>>=◌
  Halts-step_failure reason now b c q = halted (active_step c) reason now b c q

  act_on_decision_approved :
      (step : WorkflowStep F) (o : Option (HumanDecision F)) (now : F) (b c : Controller F)
      → Quiet b c
      → ((decision : HumanDecision F) × (o ≡ some decision) × (decision.approved ≡ true))
        ⊎ Halts b (act_on_decision step (approval_of step) o now c).1
  unfolding act_on_decision
  act_on_decision_approved step none now b c q = inr (stays_put q)
  act_on_decision_approved step (some d) now b c q = elim (Bool-cases d.approved) [
    | inl yea ↦ inl (d, refl, yea)
    | inr nay ↦ inr (simp nay (Halts-step_failure _ now b c q))
  ]

  asked :
      (step : WorkflowStep F) (now : F) (c : Controller F)
      → active_step c ≡ some step
      → HasApproval c.human_decisions step ⊎ Halts c (ask_human_step now c).1
  unfolding ask_human_step current_step step_or_raise ◌>>=◌
  asked step now c e = rw e (
      let d = request_approval step (approval_of step) now c in
      let quiet = Quiet-request_approval step (approval_of step) now c in
      let same = ap (λ (k : Core F). lookup (approval_of step) k.human_decisions) quiet.same in
      rw (← same)
        (act_on_decision_approved step (lookup (approval_of step) d.human_decisions) now c d quiet))

  asked_perform :
      (kind : PrimitiveKind) (step : WorkflowStep F) (t : TickInput F) (c : Controller F)
      → kind ≡ ask_human
      → active_step c ≡ some step
      → HasApproval c.human_decisions step ⊎ Halts c (perform kind step t c).1
  unfolding perform
  asked_perform ask_human step t c k e = asked step t.now c e
  asked_perform _ step t c k e = cc

  timed :
      (late : Bool) (reason : String) (step : WorkflowStep F) (t : TickInput F) (c : Controller F)
      → step.kind ≡ ask_human
      → active_step c ≡ some step
      → HasApproval c.human_decisions step
        ⊎ Halts c ((if late then step_failure reason t.now else perform step.kind step t) c).1
  timed true reason step t c k e = inr (Halts-step_failure reason t.now c c (Quiet-refl c))
  timed false reason step t c k e = asked_perform step.kind step t c k e

  -- A tick at a gate that no human has approved does not start the next step.
  pub tick_at_gate :
      (t : TickInput F) (step : WorkflowStep F) (c : Controller F)
      → step.kind ≡ ask_human
      → active_step c ≡ some step
      → HasApproval c.human_decisions step ⊎ Halts c (tick_at t step c).1
  unfolding tick_at ◌>>=◌
  tick_at_gate t step c k e =
      timed (rt.lt step.timeout_seconds (rt.sub t.now c.state_entered_at)) _ step t c k e
