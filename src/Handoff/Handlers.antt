-- ===== src/Handoff/Handlers.antt =====
-- guarded_handoff.py: what each handler does to the gates.
use flyto_robotics.Prelude.{
  ℕ, ◌+◌, ◌==◌, ◌≡◌, refl, sym, ◌∙◌, ◌⊎◌, inl, inr, String, true, false, not, ◌||◌, Option, none,
  some, if_split, if_ind, contains, str_eq, lookup_last, eq_iff, arith, length,
}
use mathlib.Core.Path.{subst}
use flyto_robotics.Python.{Result, ok, raised}
use flyto_robotics.Python.Platform.{Platform}
use flyto_robotics.Handoff.{
  HandoffAction, GuardedHandoffSession, str_of, is_text, add_name, all_verified, may_check,
  may_scan_item, may_resume, may_scan_recipient, may_unlock, is_unlocked, is_completed,
  advance_checks, verify_precondition, verify_declared, check_precondition, scan_item,
  scan_recipient, resume_checkpoint, unlock_container, complete,
}
use flyto_robotics.Handoff.Session.{
  HandoffVerb, checks, scans_item, resumes, scans_recipient, unlocks, completes, verb_of, handle,
  one_event, apply,
}
use flyto_robotics.Handoff.Gates.{
  Meets, is_open, IsGuarded, Gated, Gated-same, Gated-record_event, contains-add_name,
  may_check-closed, may_scan_item-closed, may_resume-closed, may_scan_recipient-closed,
}

module _ (a : HandoffAction) where
  -- A handler that goes on in a state that is not open leaves the container locked.
  stays_shut :
      (s s' : GuardedHandoffSession)
      → s'.container_locked ≡ s.container_locked
      → is_open s.state ≡ false
      → IsGuarded s
      → IsGuarded s'
  stays_shut s s' same shut g = record {
    gates = λ open_now. let (open_state, _, _, _) = g.gates (sym same ∙ open_now) in cc;
  }

  Gated-verify_precondition :
      (name expected : String) (s : GuardedHandoffSession)
      → verb_of a.action ≡ some checks
      → str_of a.name ≡ name
      → lookup_last name s.policy.required_preconditions ≡ some expected
      → is_open s.state ≡ false
      → Gated a s (verify_precondition name a.value expected s)
  unfolding verify_precondition
  Gated-verify_precondition name expected s verb named declared shut =
      if_split (Gated a s) (not (is_text a.value expected))
        (λ no_match. Gated-record_event a s s _ _ _ (Gated-same a s (ok tt)))
        (λ matches. Gated-record_event a s _ _ _ _ (Gated-verified (ground arith)))
    where
      added : GuardedHandoffSession
      added = record s { verified_preconditions = add_name name s.verified_preconditions }

      meets :
          is_text a.value expected ≡ true
          → (n : String) → contains n (add_name name s.verified_preconditions) ≡ true
          → (contains n s.verified_preconditions ≡ true) ⊎ Meets s.policy n a
      meets matches n h = elim (contains-add_name n name s.verified_preconditions h) [
        | inl there ↦ inl there
        | inr e ↦
            inr (subst (λ m. Meets s.policy m a) e (verb, named, (expected, declared, matches)))
      ]

      Gated-verified : is_text a.value expected ≡ true → Gated a s (ok tt, advance_checks added)
      Gated-verified matches =
          if_ind (λ s'. Gated a s (ok tt, s')) (all_verified added)
            (record {
              policy = refl;
              check = meets matches;
              item = inl;
              recipient = inl;
              guarded = stays_shut s _ refl shut;
            })
            (record {
              policy = refl;
              check = meets matches;
              item = inl;
              recipient = inl;
              guarded = stays_shut s _ refl shut;
            })

  Gated-check_precondition :
      (s : GuardedHandoffSession)
      → verb_of a.action ≡ some checks
      → Gated a s (check_precondition a s)
  unfolding check_precondition verify_declared
  Gated-check_precondition s verb =
      if_split (Gated a s) (not (may_check s.state)) (λ _. Gated-same a s _)
        λ may.
          by_declared (lookup_last (str_of a.name) s.policy.required_preconditions) refl
            (may_check-closed s.state (ground arith))
    where
      by_declared :
          (o : Option String)
          → lookup_last (str_of a.name) s.policy.required_preconditions ≡ o
          → is_open s.state ≡ false
          → Gated a s (verify_declared (str_of a.name) a.value o s)
      by_declared none e shut = Gated-same a s _
      by_declared (some expected) e shut =
          Gated-verify_precondition (str_of a.name) expected s verb refl e shut

  module _ ⦃platform : Platform⦄ where
    Gated-scan_item :
        (s : GuardedHandoffSession) → verb_of a.action ≡ some scans_item → Gated a s (scan_item a s)
    unfolding scan_item
    Gated-scan_item s verb =
        if_split (Gated a s) (not (may_scan_item s.state)) (λ _. Gated-same a s _)
          λ may.
            let shut = may_scan_item-closed s.state (ground arith) in
            if_split (Gated a s) (not (str_eq (str_of a.observed_ref) s.policy.expected_item_ref))
              (λ wrong. Gated-record_event a s _ _ _ _ (record {
                policy = refl;
                check = λ n h. inl h;
                item = λ h. cc;
                recipient = inl;
                guarded = stays_shut s _ refl shut;
              }))
              (λ right. Gated-record_event a s _ _ _ _ (record {
                policy = refl;
                check = λ n h. inl h;
                item = λ h. inr (verb, (eq_iff _ _).0 (ground arith));
                recipient = inl;
                guarded = stays_shut s _ refl shut;
              }))

    Gated-scan_recipient :
        (s : GuardedHandoffSession)
        → verb_of a.action ≡ some scans_recipient
        → Gated a s (scan_recipient a s)
    unfolding scan_recipient
    Gated-scan_recipient s verb =
        if_split (Gated a s) (not (may_scan_recipient s.state)) (λ _. Gated-same a s _)
          λ may.
            let shut = may_scan_recipient-closed s.state (ground arith) in
            if_split (Gated a s)
              (not (str_eq (str_of a.observed_ref) s.policy.expected_recipient_ref))
              (λ wrong. Gated-record_event a s _ _ _ _ (record {
                policy = refl;
                check = λ n h. inl h;
                item = inl;
                recipient = λ h. cc;
                guarded = stays_shut s _ refl shut;
              }))
              (λ right. Gated-record_event a s _ _ _ _ (record {
                policy = refl;
                check = λ n h. inl h;
                item = inl;
                recipient = λ h. inr (verb, (eq_iff _ _).0 (ground arith));
                guarded = stays_shut s _ refl shut;
              }))

  Gated-resume_checkpoint : (s : GuardedHandoffSession) → Gated a s (resume_checkpoint a s)
  unfolding resume_checkpoint
  Gated-resume_checkpoint s =
      if_split (Gated a s)
        (not (may_resume s.state)
          || (not s.item_verified || not (is_text s.checkpoint "verify_item")))
        (λ _. Gated-same a s _)
        λ may. Gated-record_event a s _ _ _ _ (record {
          policy = refl;
          check = λ n h. inl h;
          item = inl;
          recipient = inl;
          guarded = stays_shut s _ refl (may_resume-closed s.state (ground arith));
        })

  Gated-unlock_container : (s : GuardedHandoffSession) → Gated a s (unlock_container a s)
  unfolding unlock_container
  Gated-unlock_container s =
      if_split (Gated a s)
        (not (may_unlock s.state)
          || (not (all_verified s) || (not s.item_verified || not s.recipient_verified)))
        (λ _. Gated-same a s _)
        λ passed. Gated-record_event a s _ _ _ _ (record {
          policy = refl;
          check = λ n h. inl h;
          item = inl;
          recipient = inl;
          guarded = λ g. record { gates = λ _. (refl, ground arith, ground arith, ground arith) };
        })

  Gated-complete : (s : GuardedHandoffSession) → Gated a s (complete a s)
  unfolding complete
  Gated-complete s =
      if_split (Gated a s) (not (is_unlocked s.state) || s.container_locked) (λ _. Gated-same a s _)
        λ open_now. Gated-record_event a s _ _ _ _ (record {
          policy = refl;
          check = λ n h. inl h;
          item = inl;
          recipient = inl;
          guarded = λ g. record { gates = λ h. let (_, p, q, r) = g.gates h in (refl, p, q, r) };
        })

  module _ ⦃platform : Platform⦄ where
    Gated-handle :
        (o : Option HandoffVerb) (s : GuardedHandoffSession)
        → verb_of a.action ≡ o
        → Gated a s (handle o a s)
    unfolding handle
    Gated-handle none s e = Gated-same a s _
    Gated-handle (some checks) s e = Gated-check_precondition s e
    Gated-handle (some scans_item) s e = Gated-scan_item s e
    Gated-handle (some resumes) s e = Gated-resume_checkpoint s
    Gated-handle (some scans_recipient) s e = Gated-scan_recipient s e
    Gated-handle (some unlocks) s e = Gated-unlock_container s
    Gated-handle (some completes) s e = Gated-complete s

    Gated-one_event :
        (n : ℕ) (s : GuardedHandoffSession) (r : Result (Unit {0}) × GuardedHandoffSession)
        → Gated a s r
        → Gated a s (one_event n r)
    unfolding one_event
    Gated-one_event n s (raised e, s') h = h
    Gated-one_event n s (ok u, s') h =
        if_ind (Gated a s) (not (length s'.events == n + 1))
          (record {
            policy = h.policy;
            check = h.check;
            item = h.item;
            recipient = h.recipient;
            guarded = h.guarded;
          })
          h

    pub Gated-apply : (s : GuardedHandoffSession) → Gated a s (apply a s)
    unfolding apply
    Gated-apply s =
        if_ind (Gated a s) (is_completed s.state) (Gated-same a s _)
          (Gated-one_event (length s.events) s _ (Gated-handle (verb_of a.action) s refl))
