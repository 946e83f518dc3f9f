-- ===== src/Mission/Steps/Trail.antt =====
-- What no call of the controller changes, and how its log grows.
use flyto_robotics.Prelude.{
  String, ◌≡◌, refl, sym, ap, ◌∙◌, Bool, not, Bool-cases, inl, inr, Option, none, some, List, [],
  ◌∷◌, if_ind, is_some, lookup, leb, ◌||◌,
}
use mathlib.Core.Path.{subst}
use mathlib.Core.List.{append-nil}
use flyto_robotics.Python.{Runtime, Result}
use flyto_robotics.Capabilities.{safe_text}
use flyto_robotics.Contracts.{DeliveryJob}
use flyto_robotics.SemanticMap.Store.{SemanticLocationStore}
use flyto_robotics.Workflow.{WorkflowStep, WorkflowPlan, MissionState, completed, failed, cancelled}
use flyto_robotics.Mission.Controller.{
  elapsed, start_or_complete, Controller, Command, terminal, new, fail, cancelled_for,
  cancel_for_safety, transition, record_full, record_event, start_primitive, start_next_step,
  active_step, submit_human_decision, submit_active, submit_at, store_decision, reset_scratch,
  expects, record_human_decision_rejection,
}
use flyto_robotics.Mission.Tick.{is_accepted, TickInput, tick, begin}
use flyto_robotics.Mission.Frame.{
  Core, Extends, Extends-refl, Extends-trans, IsNumbered, IsNumbered-append, Quiet,
  Extends-record_full,
}
use flyto_robotics.Mission.Settles.{Settles, stays, advances, fails}
use flyto_robotics.Mission.Steps.{
  Call, ticks, cancels, fails_for, decides, rejects, call, calls, Settles-tick_running,
}

module _ {F : Type 0} ⦃rt : Runtime F⦄ where
  -- What no call changes, and the log.
  pub record Trail (c d : Controller F) : Type 0 where
    pub job : d.job ≡ c.job
    pub workflow : d.workflow ≡ c.workflow
    pub started_at : d.started_at ≡ c.started_at
    pub log : Extends c.events d.events

  pub Trail-refl : (c : Controller F) → Trail c c
  Trail-refl c = record {
    job = refl;
    workflow = refl;
    started_at = refl;
    log = Extends-refl c.events;
  }

  pub Trail-trans : (b c d : Controller F) → Trail b c → Trail c d → Trail b d
  Trail-trans b c d h k = record {
    job = k.job ∙ h.job;
    workflow = k.workflow ∙ h.workflow;
    started_at = k.started_at ∙ h.started_at;
    log = Extends-trans b.events c.events d.events h.log k.log;
  }

  pub Trail-Quiet : (c d : Controller F) → Quiet c d → Trail c d
  Trail-Quiet c d h = record {
    job = ap (λ (k : Core F). k.job) h.same;
    workflow = ap (λ (k : Core F). k.workflow) h.same;
    started_at = ap (λ (k : Core F). k.started_at) h.same;
    log = h.extends;
  }

  Trail-write :
      (c d : Controller F)
      → d.job ≡ c.job
      → d.workflow ≡ c.workflow
      → d.started_at ≡ c.started_at
      → d.events ≡ c.events
      → Trail c d
  Trail-write c d job workflow started_at log = record {
    job = job;
    workflow = workflow;
    started_at = started_at;
    log = ([], log ∙ sym (append-nil c.events), tt);
  }

  -- A write that leaves the three and the log alone, and then a transition.
  Trail-transition :
      (state : MissionState) (now : F) (detail kind : String) (c d : Controller F)
      → Trail c d
      → Trail c (transition state now detail kind d)
  unfolding transition
  Trail-transition state now detail kind c d h =
      let e : Controller F = record d { state = state; state_entered_at = now } in
      record {
        job = h.job;
        workflow = h.workflow;
        started_at = h.started_at;
        log =
            Extends-trans c.events d.events _ h.log
              (Extends-record_full now kind detail state none none e);
      }

  Trail-fail : (reason : String) (now : F) (c : Controller F) → Trail c (fail reason now c).1
  unfolding fail
  Trail-fail reason now c =
      if_ind (Trail c) (not (terminal c))
        (Trail-transition failed now reason "mission_failed" c
          (record c { failure_reason = some reason }) (Trail-write c _ refl refl refl refl))
        (Trail-refl c)

  Trail-start_next :
      (o : Option (WorkflowStep F)) (now : F) (c d : Controller F)
      → Trail c d
      → Trail c (start_or_complete o now d)
  unfolding start_or_complete start_primitive reset_scratch
  Trail-start_next none now c d h = Trail-transition completed now _ _ c d h
  Trail-start_next (some step) now c d h =
      Trail-transition step.active_state now _ _ c (reset_scratch d)
        (Trail-trans c d _ h (Trail-write d _ refl refl refl refl))

  pub Trail-start_next_step : (now : F) (c : Controller F) → Trail c (start_next_step now c)
  unfolding start_next_step
  Trail-start_next_step now c = Trail-start_next _ now c _ (Trail-write c _ refl refl refl refl)

  Trail-Settles : (c d : Controller F) → Settles c d → Trail c d
  Trail-Settles c d (stays q) = Trail-Quiet c d q
  Trail-Settles c d (advances m now q e) =
      subst (Trail c) (sym e) (Trail-trans c m _ (Trail-Quiet c m q) (Trail-start_next_step now m))
  Trail-Settles c d (fails m now reason q e) =
      subst (Trail c) (sym e) (Trail-trans c m _ (Trail-Quiet c m q) (Trail-fail reason now m))

  pub Trail-begin : (now : F) (c : Controller F) → Trail c (begin now c)
  unfolding begin
  Trail-begin now c =
      if_ind (Trail c) (is_accepted c.state) (Trail-start_next_step now c) (Trail-refl c)

  Trail-tick : (t : TickInput F) (c : Controller F) → Trail c (tick t c).1
  unfolding tick
  Trail-tick t c =
      let P : Result (Command F) × Controller F → Type 0 = λ r. Trail c r.1 in
      if_ind P (terminal c) (Trail-refl c) (
        if_ind P (rt.lt c.job.safety.mission_timeout_seconds (elapsed c t.now))
          (Trail-fail "mission_timeout" t.now c)
          (Trail-trans c (begin t.now c) _ (Trail-begin t.now c)
            (Trail-Settles _ _ (Settles-tick_running t c))))

  Trail-cancel :
      (now : F) (reason : String) (c : Controller F) → Trail c (cancel_for_safety now reason c).1
  unfolding cancel_for_safety cancelled_for
  Trail-cancel now reason c = elim (Bool-cases (safe_text reason)) [
    | inl safe ↦ rw safe (
        if_ind (Trail c) (not (terminal c))
          (Trail-transition cancelled now reason "mission_cancelled" c c (Trail-refl c))
          (Trail-refl c))
    | inr unsafe ↦ rw unsafe (Trail-refl c)
  ]

  Trail-record_full :
      (now : F) (kind detail : String) (state : MissionState) (actor : Option String)
      (step : Option (WorkflowStep F)) (c d : Controller F)
      → Trail c d
      → Trail c (record_full now kind detail state actor step d)
  unfolding record_full
  Trail-record_full now kind detail state actor step c d h = record {
    job = h.job;
    workflow = h.workflow;
    started_at = h.started_at;
    log =
        Extends-trans c.events d.events _ h.log
          (Extends-record_full now kind detail state actor step d);
  }

  Trail-submit_at :
      (step : WorkflowStep F) (approval_id : String) (approved : Bool) (actor_id : String) (now : F)
      (c : Controller F)
      → Trail c (submit_at step approval_id approved actor_id now c).1
  unfolding submit_at store_decision
  Trail-submit_at step approval_id approved actor_id now c =
      let P : Result Unit × Controller F → Type 0 = λ r. Trail c r.1 in
      if_ind P (not (expects step approval_id)) (Trail-refl c) (
        if_ind P (is_some (lookup approval_id c.human_decisions)) (Trail-refl c) (
          Trail-record_full now _ _ c.state (some actor_id) (some step) c _
            (Trail-write c _ refl refl refl refl)))

  Trail-submit_active :
      (o : Option (WorkflowStep F)) (approval_id : String) (approved : Bool) (actor_id : String)
      (now : F) (c : Controller F)
      → Trail c (submit_active o approval_id approved actor_id now c).1
  unfolding submit_active
  Trail-submit_active none approval_id approved actor_id now c = Trail-refl c
  Trail-submit_active (some step) approval_id approved actor_id now c =
      Trail-submit_at step approval_id approved actor_id now c

  Trail-submit :
      (approval_id : String) (approved : Bool) (actor_id : String) (now : F) (c : Controller F)
      → Trail c (submit_human_decision approval_id approved actor_id now c).1
  unfolding submit_human_decision
  Trail-submit approval_id approved actor_id now c =
      let P : Result Unit × Controller F → Type 0 = λ r. Trail c r.1 in
      if_ind P (terminal c) (Trail-refl c) (
        if_ind P (not (safe_text approval_id)) (Trail-refl c) (
          if_ind P (not (safe_text actor_id)) (Trail-refl c)
            (Trail-submit_active (active_step c) approval_id approved actor_id now c)))

  Trail-reject :
      (reason : String) (now : F) (c : Controller F)
      → Trail c (record_human_decision_rejection reason now c)
  unfolding record_human_decision_rejection record_event
  Trail-reject reason now c =
      if_ind (Trail c) (terminal c || leb 20 c.human_decision_rejection_count) (Trail-refl c)
        (Trail-record_full now _ _ c.state none none c _ (Trail-write c _ refl refl refl refl))

  pub Trail-call : (e : Call F) (c : Controller F) → Trail c (call e c)
  unfolding call
  Trail-call (ticks t) c = Trail-tick t c
  Trail-call (cancels now reason) c = Trail-cancel now reason c
  Trail-call (fails_for reason now) c = Trail-fail reason now c
  Trail-call (decides approval_id approved actor_id now) c =
      Trail-submit approval_id approved actor_id now c
  Trail-call (rejects reason now) c = Trail-reject reason now c

  -- Whatever calls are made, the job, the workflow and the start time stay, and the log keeps its
  -- events and gains events that are numbered on.
  pub Trail-calls : (es : List (Call F)) (c : Controller F) → Trail c (calls es c)
  unfolding calls
  Trail-calls [] c = Trail-refl c
  Trail-calls (e ∷ es) c = Trail-trans c (call e c) _ (Trail-call e c) (Trail-calls es (call e c))

  -- The log of a mission is numbered 1, 2, 3 and so on, whatever calls are made.
  pub calls-IsNumbered :
      (job : DeliveryJob F) (workflow : WorkflowPlan F) (store : Option (SemanticLocationStore F))
      (started_at : F) (es : List (Call F))
      → IsNumbered 0 (calls es (new job workflow store started_at)).events
  unfolding new
  calls-IsNumbered job workflow store started_at es =
      let c = new job workflow store started_at in
      let (added, e, numbered) = (Trail-calls es c).log in
      subst (IsNumbered 0) (sym e) (IsNumbered-append 0 1 c.events added refl (refl, tt) numbered)
