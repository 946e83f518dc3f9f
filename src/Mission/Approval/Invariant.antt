-- ===== src/Mission/Approval/Invariant.antt =====
-- Every transition of mission.py keeps a mission on track.
use flyto_robotics.Prelude.{
  ℕ, suc, ◌≤◌, ◌<◌, ◌≡◌, ◌≢◌, refl, sym, ap, ◌∙◌, ◌⊎◌, inl, inr, true, false, not, Option, none,
  some, String, List, if_ind, arith, length, get_elem?, get_elem?_lt, get_elem?_ge,
}
use flyto_robotics.Prelude.Int.{ℤ, pos, negsuc, ◌+ℤ◌}
use mathlib.Core.Path.{subst, subst₂}
use native.Mathlib.Nat.{le_antisymm}
use native.Mathlib.Decide.{ℕ_discrete}
use flyto_robotics.Python.{Runtime}
use flyto_robotics.Workflow.{MissionState, WorkflowStep, WorkflowPlan}
use flyto_robotics.Mission.Controller.{
  Controller, terminal, active_step, step_at, fail, start_next_step, start_or_complete,
  start_primitive, reset_scratch, transition, record_full,
}
use flyto_robotics.Mission.Tick.{is_accepted}
use flyto_robotics.Mission.Frame.{Core, core, Quiet}
use flyto_robotics.Mission.Approval.{passed_steps, is_completed, is_working, IsApproved, IsOnTrack}

succ_pos : (n : ℕ) → pos n +ℤ pos 1 ≡ pos (suc n)
unfolding ◌+ℤ◌
succ_pos n = ground arith

working_unstarted : (s : MissionState) → is_working s ≡ true → is_accepted s ≡ false
working_unstarted s h = ground arith

working_unfinished : (s : MissionState) → is_working s ≡ true → is_completed s ≡ false
working_unfinished s h = ground arith

first_index : negsuc 0 +ℤ pos 1 ≡ pos 0
unfolding ◌+ℤ◌
first_index = refl

same_or_other : (m n : ℕ) → (m ≡ n) ⊎ (m ≢ n)
same_or_other m n = elim (ℕ_discrete m n) [ yes e ↦ inl e | no e ↦ inr e ]

module _ {F : Type 0} where
  -- An active step stands at the index, which is then no negative number.
  pub step_at_pos :
      (steps : List (WorkflowStep F)) (i : ℤ) (step : WorkflowStep F)
      → step_at steps i ≡ some step
      → (n : ℕ) × (i ≡ pos n) × (get_elem? steps n ≡ some step)
  unfolding step_at
  step_at_pos steps (pos n) step e = (n, refl, e)
  step_at_pos steps (negsuc n) step e = cc

module _ {F : Type 0} ⦃rt : Runtime F⦄ where
  pub IsOnTrack-Quiet : (c d : Controller F) → Quiet c d → IsOnTrack (core c) → IsOnTrack (core d)
  IsOnTrack-Quiet c d q h = subst IsOnTrack (sym q.same) h

  -- A mission that ends without completing.
  pub IsOnTrack-ended :
      (k l : Core F)
      → is_accepted l.state ≡ false
      → is_completed l.state ≡ false
      → l.workflow ≡ k.workflow
      → l.step_index ≡ k.step_index
      → l.human_decisions ≡ k.human_decisions
      → IsOnTrack k
      → IsOnTrack l
  IsOnTrack-ended k l a b w i d h = record {
    working =
        λ n step e. h.working n step (ap (λ (p : WorkflowPlan F). get_elem? p.steps n) (sym w) ∙ e);
    unstarted = λ e. cc (a, e);
    finished = λ e. cc (b, e);
    within =
        subst₂ (λ (p : WorkflowPlan F) (j : ℤ). passed_steps j ≤ length p.steps) (sym w) (sym i)
          h.within;
    approved = λ n step e lt.
        subst (λ ds. IsApproved ds step) (sym d)
          (h.approved n step (ap (λ (p : WorkflowPlan F). get_elem? p.steps n) (sym w) ∙ e)
            (subst (λ j. n < passed_steps j) i lt));
  }

  pub IsOnTrack-fail :
      (reason : String) (now : F) (c : Controller F)
      → IsOnTrack (core c)
      → IsOnTrack (core (fail reason now c).1)
  unfolding fail transition record_full
  IsOnTrack-fail reason now c h =
      if_ind (λ (d : Controller F). IsOnTrack (core d)) (not (terminal c))
        (IsOnTrack-ended (core c) _ refl refl refl refl refl h) h

  -- A controller whose index has just moved to n: all gates before n are approved.
  record HasMoved (d : Controller F) (n : ℕ) : Type 0 where
    index : d.step_index ≡ pos n
    within : n ≤ length d.workflow.steps
    working :
        (m : ℕ) (step : WorkflowStep F)
        → get_elem? d.workflow.steps m ≡ some step
        → is_working step.active_state ≡ true
    approved :
        (m : ℕ) (step : WorkflowStep F)
        → get_elem? d.workflow.steps m ≡ some step
        → m < n
        → IsApproved d.human_decisions step

  started_at_index :
      (d : Controller F) (n : ℕ) (o : Option (WorkflowStep F)) (now : F)
      → HasMoved d n
      → get_elem? d.workflow.steps n ≡ o
      → IsOnTrack (core (start_or_complete o now d))
  unfolding start_or_complete start_primitive reset_scratch transition record_full
  started_at_index d n none now h e = record {
    working = h.working;
    unstarted = λ k. cc;
    finished =
        λ k. ap passed_steps h.index ∙ le_antisymm h.within (get_elem?_ge d.workflow.steps n e);
    within = subst (λ i. passed_steps i ≤ length d.workflow.steps) (sym h.index) h.within;
    approved = λ m step e lt. h.approved m step e (subst (λ i. m < passed_steps i) h.index lt);
  }
  started_at_index d n (some step) now h e = record {
    working = h.working;
    unstarted = λ k. cc (k, working_unstarted step.active_state (h.working n step e));
    finished = λ k. cc (k, working_unfinished step.active_state (h.working n step e));
    within = subst (λ i. passed_steps i ≤ length d.workflow.steps) (sym h.index) h.within;
    approved = λ m step e lt. h.approved m step e (subst (λ i. m < passed_steps i) h.index lt);
  }

  started :
      (c : Controller F) (n : ℕ) (now : F)
      → HasMoved (record c { step_index = c.step_index +ℤ pos 1 }) n
      → IsOnTrack (core (start_next_step now c))
  unfolding start_next_step active_step step_at
  started c n now h =
      started_at_index (record c { step_index = c.step_index +ℤ pos 1 }) n _ now h
        (ap (step_at c.workflow.steps) (sym h.index))

  -- The first step starts.
  pub IsOnTrack-first :
      (now : F) (c : Controller F)
      → c.step_index ≡ negsuc 0
      → IsOnTrack (core c)
      → IsOnTrack (core (start_next_step now c))
  IsOnTrack-first now c i h = started c 0 now (record {
    index = ap (λ j. j +ℤ pos 1) i ∙ first_index;
    within = omega arith;
    working = h.working;
    approved = λ m step e lt. absurd (omega arith);
  })

  earlier_or_last :
      (c : Controller F) (n : ℕ) (step : WorkflowStep F)
      → IsOnTrack (core c)
      → c.step_index ≡ pos n
      → get_elem? c.workflow.steps n ≡ some step
      → IsApproved c.human_decisions step
      → (m : ℕ) (s : WorkflowStep F) → get_elem? c.workflow.steps m ≡ some s
      → (m ≡ n) ⊎ (m ≢ n)
      → m < suc n
      → IsApproved c.human_decisions s
  earlier_or_last c n step h i at_n ok_step m s at_m (inl same) lt =
      subst (IsApproved c.human_decisions) (cc (ap (get_elem? c.workflow.steps) same)) ok_step
  earlier_or_last c n step h i at_n ok_step m s at_m (inr other) lt =
      h.approved m s at_m (subst (λ j. m < passed_steps j) (sym i) (omega arith))

  -- The next step starts behind one that needs no approval, or has it.
  pub IsOnTrack-next :
      (now : F) (c : Controller F) (step : WorkflowStep F)
      → active_step c ≡ some step
      → IsApproved c.human_decisions step
      → IsOnTrack (core c)
      → IsOnTrack (core (start_next_step now c))
  unfolding active_step
  IsOnTrack-next now c step e ok_step h =
      let (n, i, at_n) = step_at_pos c.workflow.steps c.step_index step e in
      started c (suc n) now (record {
        index = ap (λ j. j +ℤ pos 1) i ∙ succ_pos n;
        within = get_elem?_lt c.workflow.steps n step at_n;
        working = h.working;
        approved = λ m s at_m lt.
            earlier_or_last c n step h i at_n ok_step m s at_m (same_or_other m n) lt;
      })
