-- ===== src/Mission/Controller/Decisions.antt =====
-- mission.py: `submit_human_decision` and `record_human_decision_rejection`.
use flyto_robotics.Prelude.{
  String, Bool, true, false, not, ◌+◌, ◌||◌, ◌&&◌, Option, none, some, [], ◌∷◌, if◌then◌else◌, leb,
  is_some, lookup, insert, format, str_eq, take_chars,
}
use flyto_robotics.Python.{Runtime, Value, text, ok, raised, value_error, Action, raise}
use flyto_robotics.Capabilities.{safe_text}
use flyto_robotics.Workflow.{PrimitiveKind, ask_human, WorkflowStep, argument}
use flyto_robotics.Mission.Controller.State.{HumanDecision, Controller, terminal}
use flyto_robotics.Mission.Controller.Transitions.{active_step, elapsed, record_full, record_event}

abbrev pub is_ask_human : PrimitiveKind → Bool
is_ask_human ask_human = true
is_ask_human _ = false

module _ {F : Type 0} where
  -- `expected == approval_id`, where `expected` is any value
  abbrev pub is_text : Option (Value F) → String → Bool
  is_text (some (text s)) t = str_eq s t
  is_text _ t = false

  -- The step that waits for this approval, by `self._current_step()` and its argument.
  unfoldable pub expects : WorkflowStep F → String → Bool
  unfolding argument
  expects step approval_id =
      is_ask_human step.kind && is_text (argument "approval_id" step) approval_id

module _ {F : Type 0} ⦃rt : Runtime F⦄ where
  unfoldable pub store_decision :
      WorkflowStep F → String → Bool → String → F → Controller F → Controller F
  unfolding record_full
  store_decision step approval_id approved actor_id now c =
      let decision : HumanDecision F = record {
        approval_id = approval_id;
        approved = approved;
        actor_id = actor_id;
        at_seconds = elapsed c now;
      } in
      record_full now (if approved then "human_approved" else "human_denied")
        (format ("decision recorded for " ∷ approval_id ∷ [])) c.state (some actor_id) (some step)
        (record c { human_decisions = insert approval_id decision c.human_decisions })

  unfoldable pub submit_at :
      WorkflowStep F → String → Bool → String → F → Action (Controller F) (Unit {0})
  unfolding store_decision expects
  submit_at step approval_id approved actor_id now c =
      if not (expects step approval_id)
      then (raised (value_error "human decision does not match the active ask_human gate"), c)
      else if is_some (lookup approval_id c.human_decisions)
      then (raised (value_error "human decision has already been recorded"), c)
      else (ok tt, store_decision step approval_id approved actor_id now c)

  unfoldable pub submit_active :
      Option (WorkflowStep F) → String → Bool → String → F → Action (Controller F) (Unit {0})
  unfolding submit_at
  submit_active none approval_id approved actor_id now =
      raise (value_error "no workflow step is active")
  submit_active (some step) approval_id approved actor_id now =
      submit_at step approval_id approved actor_id now

  -- `approved` is a Boolean by its type.
  unfoldable pub submit_human_decision :
      String → Bool → String → F → Action (Controller F) (Unit {0})
  unfolding submit_active
  submit_human_decision approval_id approved actor_id now c =
      if terminal c
      then (raised (value_error "cannot approve a terminal mission"), c)
      else if not (safe_text approval_id)
      then (raised (value_error "approval_id must be a safe identifier"), c)
      else if not (safe_text actor_id)
      then (raised (value_error "actor_id must be a safe identifier"), c)
      else submit_active (active_step c) approval_id approved actor_id now c

  unfoldable pub record_human_decision_rejection : String → F → Controller F → Controller F
  unfolding record_event
  record_human_decision_rejection reason now c =
      if terminal c || leb 20 c.human_decision_rejection_count
      then c
      else record_event now "human_decision_rejected" (take_chars 128 reason)
          (record c { human_decision_rejection_count = c.human_decision_rejection_count + 1 })
