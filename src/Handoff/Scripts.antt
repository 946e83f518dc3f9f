-- ===== src/Handoff/Scripts.antt =====
-- guarded_handoff.py: what a script that runs to its end has done.
use flyto_robotics.Prelude.{
  ◌≡◌, refl, sym, ap, ◌∙◌, String, true, false, not, Any, if_split, arith, contains, str_eq,
}
use mathlib.Core.Path.{subst}
use flyto_robotics.Python.{Result, ok, raised}
use flyto_robotics.Python.Checks.{OkAnd}
use flyto_robotics.Python.Platform.{Platform}
use flyto_robotics.Handoff.{
  HandoffState, GuardedHandoffPolicy, GuardedHandoffSession, names, is_completed,
}
use flyto_robotics.Handoff.Session.{new, apply_all}
use flyto_robotics.Handoff.Gates.{Meets, ShowsItem, ShowsRecipient, is_open}
use flyto_robotics.Handoff.Unlocking.{unlocked_passed_gates}
use flyto_robotics.Handoff.Moves.{IsCoherent, IsCoherent-apply_all, IsCoherent-new}
use flyto_robotics.Handoff.Parsing.{GuardedHandoffScript, finished, run_scripted_handoff}

-- The session has ended with its container unlocked, and the script has passed every gate.
pub record IsHandedOver (policy : GuardedHandoffPolicy) (script : GuardedHandoffScript)
    (s : GuardedHandoffSession) : Type 0 where
  pub completed : is_completed s.state ≡ true
  pub unlocked : s.container_locked ≡ false
  pub preconditions :
      (name : String)
      → contains name (names policy.required_preconditions) ≡ true
      → Any (Meets policy name) script.actions
  pub item : Any (ShowsItem policy) script.actions
  pub recipient : Any (ShowsRecipient policy) script.actions
  pub of_policy : str_eq script.policy_id policy.policy_id ≡ true

completed-open : (st : HandoffState) → is_completed st ≡ true → is_open st ≡ true
completed-open st h = grind arith

module _ ⦃platform : Platform⦄ (policy : GuardedHandoffPolicy) (script : GuardedHandoffScript) where
  IsHandedOver-finished :
      (r : Result (Unit {0}) × GuardedHandoffSession)
      → r ≡ apply_all script.actions (new policy script.script_id)
      → str_eq script.policy_id policy.policy_id ≡ true
      → OkAnd (IsHandedOver policy script) (finished r)
  unfolding finished
  IsHandedOver-finished (raised e, s) same named = tt
  IsHandedOver-finished (ok u, s) same named =
      if_split (OkAnd (IsHandedOver policy script)) (not (is_completed s.state)) (λ _. tt)
        λ done.
          let ended : is_completed s.state ≡ true = ground arith in
          let coherent : IsCoherent s =
            subst (λ (r : Result (Unit {0}) × GuardedHandoffSession). IsCoherent r.1) (sym same)
              (IsCoherent-apply_all script.actions (new policy script.script_id)
                (IsCoherent-new policy script.script_id)) in
          let unlocked = coherent.opened (completed-open s.state ended) in
          let (checked, item, recipient) =
            unlocked_passed_gates policy script.script_id script.actions (
              sym
                (ap (λ (r : Result (Unit {0}) × GuardedHandoffSession). r.1.container_locked) same)
              ∙ unlocked) in
          record {
            completed = ended;
            unlocked = unlocked;
            preconditions = checked;
            item = item;
            recipient = recipient;
            of_policy = named;
          }

  -- A script that runs to its end has handed over: the session is completed with its container
  -- unlocked, the script is for this policy, and among its actions are, for each precondition that
  -- the policy requires, one that gives it the required value, one that scans the expected item, and
  -- one that scans the expected recipient.
  pub IsHandedOver-run_scripted_handoff :
      OkAnd (IsHandedOver policy script) (run_scripted_handoff policy script)
  unfolding run_scripted_handoff
  IsHandedOver-run_scripted_handoff =
      if_split (OkAnd (IsHandedOver policy script)) (not (str_eq script.policy_id policy.policy_id))
        (λ _. tt) λ named. IsHandedOver-finished _ refl (ground arith)
