-- ===== src/Mission/Approval/Completion.antt =====
-- What a completed mission has behind it.
use flyto_robotics.Prelude.{
  ℕ, suc, zero, ◌<◌, ◌≡◌, refl, sym, ap, ◌∙◌, true, Option, some, List, [], ◌∷◌, arith, length,
  get_elem?,
}
use mathlib.Core.Path.{subst}
use flyto_robotics.Python.{Runtime}
use flyto_robotics.Contracts.{DeliveryJob}
use flyto_robotics.SemanticMap.Store.{SemanticLocationStore}
use flyto_robotics.Workflow.{ask_human, WorkflowStep, WorkflowPlan}
use flyto_robotics.Mission.Controller.{new}
use flyto_robotics.Mission.Frame.{core}
use flyto_robotics.Mission.Steps.{Call, calls}
use flyto_robotics.Mission.Approval.{passed_steps, is_completed, is_working, HasApproval, IsOnTrack}
use flyto_robotics.Prelude.{All, get_elem?_lt}
use flyto_robotics.Mission.Steps.Trail.{Trail-calls}
use flyto_robotics.Mission.Approval.Missions.{IsOnTrack-calls}

-- No step of the workflow enters the state of a mission's start or that of its end.
abbrev pub IsWorking : {F : Type 0} → WorkflowPlan F → Type 0
IsWorking p = All (λ s. is_working s.active_state ≡ true) p.steps

module _ {F : Type 0} ⦃rt : Runtime F⦄ where
  working_at :
      (steps : List (WorkflowStep F)) (n : ℕ) (step : WorkflowStep F)
      → All (λ s. is_working s.active_state ≡ true) steps
      → get_elem? steps n ≡ some step
      → is_working step.active_state ≡ true
  working_at [] n step h e = cc
  working_at (s ∷ steps) zero step h e = cc
  working_at (s ∷ steps) (suc n) step h e = working_at steps n step h.1 e

  IsOnTrack-new :
      (job : DeliveryJob F) (workflow : WorkflowPlan F) (store : Option (SemanticLocationStore F))
      (started_at : F)
      → IsWorking workflow
      → IsOnTrack (core (new job workflow store started_at))
  unfolding new
  IsOnTrack-new job workflow store started_at h = record {
    working = λ n step e. working_at workflow.steps n step h e;
    unstarted = λ e. refl;
    finished = λ e. cc;
    within = omega arith;
    approved = λ n step e lt. absurd (omega arith);
  }

  -- Take a mission from its start through any sequence of calls, over a workflow whose steps enter
  -- neither the state of a mission's start nor that of its end. Every gate that it has passed has an
  -- approved decision recorded for it.
  pub passed_gate-HasApproval :
      (job : DeliveryJob F) (workflow : WorkflowPlan F) (store : Option (SemanticLocationStore F))
      (started_at : F) (es : List (Call F)) (n : ℕ) (step : WorkflowStep F)
      → IsWorking workflow
      → get_elem? workflow.steps n ≡ some step
      → step.kind ≡ ask_human
      → n < passed_steps (calls es (new job workflow store started_at)).step_index
      → HasApproval (calls es (new job workflow store started_at)).human_decisions step
  unfolding new
  passed_gate-HasApproval job workflow store started_at es n step working at_n gate lt =
      let start = new job workflow store started_at in
      let track = IsOnTrack-calls es start (IsOnTrack-new job workflow store started_at working) in
      track.approved n step
        (ap (λ (p : WorkflowPlan F). get_elem? p.steps n) (Trail-calls es start).workflow ∙ at_n) lt
        gate

  -- A mission that completes has passed as many steps as its workflow has, by the same premises.
  pub completed_passes_all :
      (job : DeliveryJob F) (workflow : WorkflowPlan F) (store : Option (SemanticLocationStore F))
      (started_at : F) (es : List (Call F))
      → IsWorking workflow
      → is_completed (calls es (new job workflow store started_at)).state ≡ true
      → passed_steps (calls es (new job workflow store started_at)).step_index
        ≡ length workflow.steps
  unfolding new
  completed_passes_all job workflow store started_at es working done =
      let start = new job workflow store started_at in
      let track = IsOnTrack-calls es start (IsOnTrack-new job workflow store started_at working) in
      track.finished done
      ∙ ap (λ (p : WorkflowPlan F). length p.steps) (Trail-calls es start).workflow

  -- A mission that completes, after any calls over a workflow whose steps enter neither the state of
  -- a mission's start nor that of its end, has an approved decision for each of its human gates.
  pub completed-HasApproval :
      (job : DeliveryJob F) (workflow : WorkflowPlan F) (store : Option (SemanticLocationStore F))
      (started_at : F) (es : List (Call F)) (n : ℕ) (step : WorkflowStep F)
      → IsWorking workflow
      → is_completed (calls es (new job workflow store started_at)).state ≡ true
      → get_elem? workflow.steps n ≡ some step
      → step.kind ≡ ask_human
      → HasApproval (calls es (new job workflow store started_at)).human_decisions step
  completed-HasApproval job workflow store started_at es n step working done at_n gate =
      passed_gate-HasApproval job workflow store started_at es n step working at_n gate (
        subst (λ k. n < k)
          (sym (completed_passes_all job workflow store started_at es working done))
          (get_elem?_lt workflow.steps n step at_n))
