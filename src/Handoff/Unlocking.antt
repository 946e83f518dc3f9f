-- ===== src/Handoff/Unlocking.antt =====
-- guarded_handoff.py: what a session has seen before its container is unlocked.
use flyto_robotics.Prelude.{
  ◌≡◌, refl, ap, ◌∙◌, ◌⊎◌, inl, inr, String, Bool, true, false, List, [], ◌∷◌, Any, contains,
  str_eq, eq_iff, arith, Bool-cases,
}
use mathlib.Core.Path.{subst}
use flyto_robotics.Python.{Result, ok, raised}
use flyto_robotics.Python.Platform.{Platform}
use flyto_robotics.Handoff.{
  GuardedHandoffPolicy, HandoffAction, GuardedHandoffSession, names, all_in, record_event,
}
use flyto_robotics.Handoff.Session.{next, apply, apply_all, new}
use flyto_robotics.Handoff.Gates.{Meets, ShowsItem, ShowsRecipient, IsGuarded, Gated}
use flyto_robotics.Handoff.Handlers.{Gated-apply}

-- What a sequence of calls with these actions does to the gates.
record Passed (actions : List HandoffAction) (s s' : GuardedHandoffSession) : Type 0 where
  policy : s'.policy ≡ s.policy
  check :
      (name : String)
      → contains name s'.verified_preconditions ≡ true
      → (contains name s.verified_preconditions ≡ true) ⊎ Any (Meets s.policy name) actions
  item : s'.item_verified ≡ true → (s.item_verified ≡ true) ⊎ Any (ShowsItem s.policy) actions
  recipient :
      s'.recipient_verified ≡ true
      → (s.recipient_verified ≡ true) ⊎ Any (ShowsRecipient s.policy) actions
  guarded : IsGuarded s → IsGuarded s'

Passed-none : (s : GuardedHandoffSession) → Passed [] s s
Passed-none s = record {
  policy = refl;
  check = λ name h. inl h;
  item = inl;
  recipient = inl;
  guarded = λ g. g;
}

-- What the later calls have passed was passed before them, by the first call, or by them.
later :
    {A B C : Type 0} (P : HandoffAction → Type 0) (a : HandoffAction) (actions : List HandoffAction)
    → (A → B ⊎ Any P actions)
    → (B → C ⊎ P a)
    → A
    → C ⊎ Any P (a ∷ actions)
later P a actions f g x = elim (f x) [
  | inr done ↦ inr (inr done)
  | inl b ↦ elim (g b) [ inl c ↦ inl c | inr done ↦ inr (inl done) ]
]

first :
    {A C : Type 0} (P : HandoffAction → Type 0) (a : HandoffAction) (actions : List HandoffAction)
    → (A → C ⊎ P a)
    → A
    → C ⊎ Any P (a ∷ actions)
first P a actions f x = elim (f x) [ inl c ↦ inl c | inr done ↦ inr (inl done) ]

module _ ⦃platform : Platform⦄ where
  Passed-first :
      (a : HandoffAction) (actions : List HandoffAction) (s s' : GuardedHandoffSession)
      (r : Result (Unit {0}))
      → Gated a s (r, s')
      → Passed (a ∷ actions) s s'
  Passed-first a actions s s' r h = record {
    policy = h.policy;
    check = λ name. first (Meets s.policy name) a actions (h.check name);
    item = first (ShowsItem s.policy) a actions h.item;
    recipient = first (ShowsRecipient s.policy) a actions h.recipient;
    guarded = h.guarded;
  }

  Passed-then :
      (a : HandoffAction) (actions : List HandoffAction) (s s' s'' : GuardedHandoffSession)
      (r : Result (Unit {0}))
      → Gated a s (r, s')
      → Passed actions s' s''
      → Passed (a ∷ actions) s s''
  Passed-then a actions s s' s'' r h k = record {
    policy = k.policy ∙ h.policy;
    check = λ name.
        later (Meets s.policy name) a actions
          (subst
            (λ p.
              contains name s''.verified_preconditions ≡ true
              → (contains name s'.verified_preconditions ≡ true) ⊎ Any (Meets p name) actions)
            h.policy (k.check name))
          (h.check name);
    item =
        later (ShowsItem s.policy) a actions
          (subst
            (λ p. s''.item_verified ≡ true → (s'.item_verified ≡ true) ⊎ Any (ShowsItem p) actions)
            h.policy k.item)
          h.item;
    recipient =
        later (ShowsRecipient s.policy) a actions
          (subst
            (λ p.
              s''.recipient_verified ≡ true
              → (s'.recipient_verified ≡ true) ⊎ Any (ShowsRecipient p) actions)
            h.policy k.recipient)
          h.recipient;
    guarded = λ g. k.guarded (h.guarded g);
  }

  Passed-apply_all :
      (actions : List HandoffAction) (s : GuardedHandoffSession)
      → Passed actions s (apply_all actions s).1
  unfolding apply_all next
  Passed-apply_all [] s = Passed-none s
  Passed-apply_all (a ∷ actions) s = behind (apply a s) (Gated-apply a s) (Passed-apply_all actions)
    where
      behind :
          (r : Result (Unit {0}) × GuardedHandoffSession)
          → Gated a s r
          → ((t : GuardedHandoffSession) → Passed actions t (apply_all actions t).1)
          → Passed (a ∷ actions) s (next r (apply_all actions)).1
      behind (raised e, t) h k = Passed-first a actions s t _ h
      behind (ok u, t) h k = Passed-then a actions s t _ _ h (k t)

contains-all_in :
    (n : String) (xs ys : List String)
    → all_in xs ys ≡ true
    → contains n xs ≡ true
    → contains n ys ≡ true
contains-all_in n [] ys h k = cc
contains-all_in n (x ∷ xs) ys h k = elim (Bool-cases (str_eq x n)) [
  | inl e ↦ subst (λ m. contains m ys ≡ true) ((eq_iff x n).0 e) (ground arith)
  | inr e ↦ contains-all_in n xs ys (ground arith) (simp e at k)
]

-- What had not been passed at the start was passed by the actions.
by_actions : {C : Type 0} {b : Bool} → b ≡ false → (b ≡ true) ⊎ C → C
by_actions e (inl h) = absurd (cc)
by_actions e (inr c) = c

module _ ⦃platform : Platform⦄ where
  -- Take a new session through any sequence of actions, up to the first that raises. If its container
  -- is not locked then, there are among the actions, for each precondition that the policy requires,
  -- one that gives it the required value, one that scans the expected item, and one that scans the
  -- expected recipient.
  pub unlocked_passed_gates :
      (policy : GuardedHandoffPolicy) (session_id : String) (actions : List HandoffAction)
      → (apply_all actions (new policy session_id)).1.container_locked ≡ false
      → ((name : String)
          → contains name (names policy.required_preconditions) ≡ true
          → Any (Meets policy name) actions)
        × Any (ShowsItem policy) actions
        × Any (ShowsRecipient policy) actions
  unfolding new record_event
  unlocked_passed_gates policy session_id actions h =
      let s = new policy session_id in
      let end = (apply_all actions s).1 in
      let p = Passed-apply_all actions s in
      let start : IsGuarded s = record { gates = λ open_now. cc } in
      let (_, verified, item, recipient) = (p.guarded start).gates h in
      let kept : names end.policy.required_preconditions ≡ names policy.required_preconditions =
        ap (λ (q : GuardedHandoffPolicy). names q.required_preconditions) p.policy in
      let covered : all_in (names policy.required_preconditions) end.verified_preconditions ≡ true =
        subst (λ ns. all_in ns end.verified_preconditions ≡ true) kept (ground arith) in
      (
        λ name required.
            by_actions {b = false} refl (p.check name (contains-all_in name _ _ covered required)),
        by_actions {b = false} refl (p.item item),
        by_actions {b = false} refl (p.recipient recipient),
      )
