-- ===== src/Handoff/Moves.antt =====
-- guarded_handoff.py: the session as a machine of eight states, and its log.
use flyto_robotics.Prelude.{
  ◌+◌, ◌==◌, ◌≡◌, refl, sym, ap, String, Bool, true, false, not, ◌||◌, Option, none, some, List, [],
  ◌∷◌, ◌++◌, if_split, if_ind, str_eq, if◌then◌else◌, format, lookup_last, arith, length,
  length-append,
}
use mathlib.Core.Path.{subst}
use flyto_robotics.Python.{Result, ok, raised}
use flyto_robotics.Python.Platform.{Platform}
use flyto_robotics.Handoff.{
  HandoffState, awaiting_preconditions, awaiting_item, blocked_item, checkpoint_ready,
  awaiting_recipient, ready_to_unlock, unlocked, completed, GuardedHandoffPolicy, HandoffAction,
  HandoffEvent, GuardedHandoffSession, str_of, is_text, add_name, all_verified, may_check,
  may_scan_item, may_resume, may_scan_recipient, may_unlock, is_unlocked, is_completed,
  record_event, advance_checks, verify_precondition, verify_declared, check_precondition, scan_item,
  scan_recipient, resume_checkpoint, unlock_container, complete,
}
use flyto_robotics.Handoff.Session.{
  HandoffVerb, checks, scans_item, resumes, scans_recipient, unlocks, completes, verb_of, handle,
  one_event, next, apply, apply_all, new,
}
use flyto_robotics.Handoff.Gates.{is_open}

-- The moves of the machine. From a blocked item the way on is through the checkpoint.
abbrev pub may_move : HandoffState → HandoffState → Bool
may_move awaiting_preconditions awaiting_preconditions = true
may_move awaiting_preconditions awaiting_item = true
may_move awaiting_item blocked_item = true
may_move awaiting_item awaiting_recipient = true
may_move blocked_item blocked_item = true
may_move blocked_item checkpoint_ready = true
may_move checkpoint_ready awaiting_recipient = true
may_move awaiting_recipient awaiting_recipient = true
may_move awaiting_recipient ready_to_unlock = true
may_move ready_to_unlock awaiting_recipient = true
may_move ready_to_unlock ready_to_unlock = true
may_move ready_to_unlock unlocked = true
may_move unlocked completed = true
may_move _ _ = false

-- The checkpoint that a state calls for, where it calls for one or for none.
abbrev pub asks_checkpoint : HandoffState → Bool
asks_checkpoint blocked_item = true
asks_checkpoint checkpoint_ready = true
asks_checkpoint _ = false

abbrev pub asks_none : HandoffState → Bool
asks_none awaiting_preconditions = true
asks_none awaiting_item = true
asks_none _ = false

-- The checkpoint is there exactly where the state calls for it, and the open states are unlocked.
pub record IsCoherent (s : GuardedHandoffSession) : Type 0 where
  pub kept : asks_checkpoint s.state ≡ true → is_text s.checkpoint "verify_item" ≡ true
  pub clear : asks_none s.state ≡ true → is_text s.checkpoint "verify_item" ≡ false
  pub opened : is_open s.state ≡ true → s.container_locked ≡ false

-- A handler moves the machine, keeps the checkpoint in step and adds one event, which shows the new
-- state; or it raises and changes nothing.
pub record Moved (s s' : GuardedHandoffSession) : Type 0 where
  pub move : may_move s.state s'.state ≡ true
  pub coherent : IsCoherent s'
  pub event :
      (e : HandoffEvent) × (s'.events ≡ s.events ++ e ∷ [])
      × (e.sequence ≡ length s.events + 1)
      × (e.state ≡ s'.state)
      × (e.container_locked ≡ s'.container_locked)

abbrev pub Moves : GuardedHandoffSession → Result (Unit {0}) × GuardedHandoffSession → Type 0
Moves s (raised e, s') = s' ≡ s
Moves s (ok u, s') = Moved s s'

Moved-record_event :
    (s s' : GuardedHandoffSession) (kind detail : String) (fields : List (String × String))
    → s'.events ≡ s.events
    → may_move s.state s'.state ≡ true
    → IsCoherent s'
    → Moved s (record_event kind detail fields s')
unfolding record_event
Moved-record_event s s' kind detail fields same move h =
    let e : HandoffEvent = record {
      sequence = length s'.events + 1;
      kind = kind;
      detail = detail;
      state = s'.state;
      container_locked = s'.container_locked;
      fields = fields;
    } in
    record {
      move = move;
      coherent = record { kept = h.kept; clear = h.clear; opened = h.opened };
      event = (
        e,
        ap (λ log. log ++ e ∷ []) same,
        ap (λ (log : List HandoffEvent). length log + 1) same,
        refl,
        refl,
      );
    }

-- An accepted item leads to the checkpoint exactly if one was rejected before.
accept_move :
    (st : HandoffState) (b : Bool)
    → may_scan_item st ≡ true
    → (asks_checkpoint st ≡ true → b ≡ true)
    → (asks_none st ≡ true → b ≡ false)
    → may_move st (if b then checkpoint_ready else awaiting_recipient) ≡ true
accept_move awaiting_item b h kept clear = rw (clear refl) refl
accept_move blocked_item b h kept clear = rw (kept refl) refl
accept_move awaiting_preconditions b h kept clear = cc
accept_move checkpoint_ready b h kept clear = cc
accept_move awaiting_recipient b h kept clear = cc
accept_move ready_to_unlock b h kept clear = cc
accept_move unlocked b h kept clear = cc
accept_move completed b h kept clear = cc

module _ (a : HandoffAction) where
  Moves-verify_precondition :
      (name expected : String) (s : GuardedHandoffSession)
      → may_check s.state ≡ true
      → IsCoherent s
      → Moves s (verify_precondition name a.value expected s)
  unfolding verify_precondition advance_checks
  Moves-verify_precondition name expected s may h =
      if_split (Moves s) (not (is_text a.value expected))
        (λ no_match. Moved-record_event s s _ _ _ refl (grind arith) h)
        (λ matches.
          if_ind
            (λ s'. Moved s (
              record_event "precondition_verified" (format (name ∷ " satisfied" ∷ []))
                (("condition", name) ∷ ("actual", str_of a.value) ∷ []) s'))
            (all_verified
              (record s { verified_preconditions = add_name name s.verified_preconditions }))
            (Moved-record_event s _ _ _ _ refl (grind arith)
              (record { kept = λ c. cc; clear = λ c. h.clear (grind arith); opened = λ c. cc }))
            (Moved-record_event s _ _ _ _ refl (grind arith)
              (record { kept = h.kept; clear = h.clear; opened = h.opened })))

  Moves-check_precondition :
      (s : GuardedHandoffSession) → IsCoherent s → Moves s (check_precondition a s)
  unfolding check_precondition verify_declared
  Moves-check_precondition s h =
      if_split (Moves s) (not (may_check s.state)) (λ _. refl)
        λ may.
          by_declared (lookup_last (str_of a.name) s.policy.required_preconditions) (ground arith)
    where
      by_declared :
          (o : Option String)
          → may_check s.state ≡ true
          → Moves s (verify_declared (str_of a.name) a.value o s)
      by_declared none may = refl
      by_declared (some expected) may = Moves-verify_precondition (str_of a.name) expected s may h

  Moves-resume_checkpoint :
      (s : GuardedHandoffSession) → IsCoherent s → Moves s (resume_checkpoint a s)
  unfolding resume_checkpoint
  Moves-resume_checkpoint s h =
      if_split (Moves s)
        (not (may_resume s.state)
          || (not s.item_verified || not (is_text s.checkpoint "verify_item")))
        (λ _. refl)
        λ may.
          Moved-record_event s _ _ _ _ refl (grind arith)
            (record { kept = λ c. cc; clear = λ c. refl; opened = λ c. cc })

  Moves-unlock_container :
      (s : GuardedHandoffSession) → IsCoherent s → Moves s (unlock_container a s)
  unfolding unlock_container
  Moves-unlock_container s h =
      if_split (Moves s)
        (not (may_unlock s.state)
          || (not (all_verified s) || (not s.item_verified || not s.recipient_verified)))
        (λ _. refl)
        λ may.
          let ready : may_unlock s.state ≡ true = ground arith in
          Moved-record_event s _ _ _ _ refl (grind arith)
            (record { kept = λ c. cc; clear = λ c. cc; opened = λ c. refl })

  Moves-complete : (s : GuardedHandoffSession) → IsCoherent s → Moves s (complete a s)
  unfolding complete
  Moves-complete s h =
      if_split (Moves s) (not (is_unlocked s.state) || s.container_locked) (λ _. refl)
        λ may.
          let ready : is_unlocked s.state ≡ true = ground arith in
          Moved-record_event s _ _ _ _ refl (grind arith)
            (record { kept = λ c. cc; clear = λ c. cc; opened = λ c. ground arith })

  module _ ⦃platform : Platform⦄ where
    Moves-scan_item : (s : GuardedHandoffSession) → IsCoherent s → Moves s (scan_item a s)
    unfolding scan_item
    Moves-scan_item s h =
        if_split (Moves s) (not (may_scan_item s.state)) (λ _. refl)
          λ may.
            if_split (Moves s) (not (str_eq (str_of a.observed_ref) s.policy.expected_item_ref))
              (λ wrong.
                Moved-record_event s _ _ _ _ refl (grind arith)
                  (record { kept = λ c. refl; clear = λ c. cc; opened = λ c. cc }))
              (λ right.
                Moved-record_event s _ _ _ _ refl
                  (accept_move s.state (is_text s.checkpoint "verify_item") (ground arith) h.kept
                    h.clear)
                  (record {
                    kept = λ c. ground arith;
                    clear = λ c. ground arith;
                    opened = λ c. ground arith;
                  }))

    Moves-scan_recipient : (s : GuardedHandoffSession) → IsCoherent s → Moves s (scan_recipient a s)
    unfolding scan_recipient
    Moves-scan_recipient s h =
        if_split (Moves s) (not (may_scan_recipient s.state)) (λ _. refl)
          λ may.
            if_split (Moves s)
              (not (str_eq (str_of a.observed_ref) s.policy.expected_recipient_ref))
              (λ wrong.
                Moved-record_event s _ _ _ _ refl (grind arith)
                  (record { kept = λ c. cc; clear = λ c. cc; opened = λ c. cc }))
              (λ right.
                Moved-record_event s _ _ _ _ refl (grind arith)
                  (record { kept = λ c. cc; clear = λ c. cc; opened = λ c. cc }))

    Moves-handle :
        (o : Option HandoffVerb) (s : GuardedHandoffSession) → IsCoherent s → Moves s (handle o a s)
    unfolding handle
    Moves-handle none s h = refl
    Moves-handle (some checks) s h = Moves-check_precondition s h
    Moves-handle (some scans_item) s h = Moves-scan_item s h
    Moves-handle (some resumes) s h = Moves-resume_checkpoint s h
    Moves-handle (some scans_recipient) s h = Moves-scan_recipient s h
    Moves-handle (some unlocks) s h = Moves-unlock_container s h
    Moves-handle (some completes) s h = Moves-complete s h

    -- The test behind the handler never fails.
    Moves-one_event :
        (s : GuardedHandoffSession) (r : Result (Unit {0}) × GuardedHandoffSession)
        → Moves s r
        → Moves s (one_event (length s.events) r)
    unfolding one_event
    Moves-one_event s (raised e, s') h = h
    Moves-one_event s (ok u, s') h =
        let (e, longer, _, _, _) = h.event in
        let one : (length s'.events == length s.events + 1) ≡ true =
          ground (arith, ap (length {0}) longer, length-append {0} s.events (e ∷ [])) in
        rw one h

    -- An action either moves the machine along one of its moves, with one event behind it that bears
    -- the next number and shows the new state and the lock; or it raises and leaves the session as it
    -- was. The session keeps a checkpoint exactly where its state calls for one.
    pub Moves-apply : (s : GuardedHandoffSession) → IsCoherent s → Moves s (apply a s)
    unfolding apply
    Moves-apply s h =
        if_ind (Moves s) (is_completed s.state) refl
          (Moves-one_event s _ (Moves-handle (verb_of a.action) s h))

module _ ⦃platform : Platform⦄ where
  pub IsCoherent-apply_all :
      (actions : List HandoffAction) (s : GuardedHandoffSession)
      → IsCoherent s
      → IsCoherent (apply_all actions s).1
  unfolding apply_all next
  IsCoherent-apply_all [] s h = h
  IsCoherent-apply_all (a ∷ actions) s h =
      behind (apply a s) (Moves-apply a s h) (IsCoherent-apply_all actions)
    where
      behind :
          (q : Result (Unit {0}) × GuardedHandoffSession)
          → Moves s q
          → ((t : GuardedHandoffSession) → IsCoherent t → IsCoherent (apply_all actions t).1)
          → IsCoherent (next q (apply_all actions)).1
      behind (raised e, t) m k = subst IsCoherent (sym m) h
      behind (ok u, t) m k = k t m.coherent

  pub IsCoherent-new :
      (policy : GuardedHandoffPolicy) (session_id : String) → IsCoherent (new policy session_id)
  unfolding new record_event
  IsCoherent-new policy session_id = record { kept = λ c. cc; clear = λ c. refl; opened = λ c. cc }
