-- ===== src/Handoff/Gates.antt =====
-- guarded_handoff.py: what has happened before a container is unlocked.
use flyto_robotics.Prelude.{
  ◌≡◌, refl, ◌⊎◌, inl, inr, String, Bool, true, false, some, List, [], ◌∷◌, ◌++◌, contains, str_eq,
  lookup_last, eq_iff, arith, Bool-cases,
}
use flyto_robotics.Python.{Result, ok}
use flyto_robotics.Handoff.{
  HandoffState, unlocked, completed, GuardedHandoffPolicy, HandoffAction, GuardedHandoffSession,
  str_of, is_text, add_name, all_verified, may_check, may_scan_item, may_resume, may_scan_recipient,
  is_unlocked, record_event,
}
use flyto_robotics.Handoff.Session.{checks, scans_item, scans_recipient, verb_of, new}

-- The action gives a declared precondition the value that the policy requires.
abbrev pub Meets : GuardedHandoffPolicy → String → HandoffAction → Type 0
Meets policy name a =
    (verb_of a.action ≡ some checks)
    × (str_of a.name ≡ name)
    × ((expected : String) × (lookup_last name policy.required_preconditions ≡ some expected)
        × (is_text a.value expected ≡ true))

abbrev pub ShowsItem : GuardedHandoffPolicy → HandoffAction → Type 0
ShowsItem policy a =
    (verb_of a.action ≡ some scans_item) × (str_of a.observed_ref ≡ policy.expected_item_ref)

abbrev pub ShowsRecipient : GuardedHandoffPolicy → HandoffAction → Type 0
ShowsRecipient policy a =
    (verb_of a.action ≡ some scans_recipient)
    × (str_of a.observed_ref ≡ policy.expected_recipient_ref)

abbrev pub is_open : HandoffState → Bool
is_open unlocked = true
is_open completed = true
is_open _ = false

-- A container that is not locked has all of its gates passed, and its session takes no more of them.
pub record IsGuarded (s : GuardedHandoffSession) : Type 0 where
  pub gates :
      s.container_locked ≡ false
      → (is_open s.state ≡ true)
        × (all_verified s ≡ true)
        × (s.item_verified ≡ true)
        × (s.recipient_verified ≡ true)

-- What a call with this action does to the gates.
pub record Gated (a : HandoffAction) (s : GuardedHandoffSession)
    (r : Result (Unit {0}) × GuardedHandoffSession) : Type 0 where
  pub policy : (r.1).policy ≡ s.policy
  pub check :
      (name : String)
      → contains name (r.1).verified_preconditions ≡ true
      → (contains name s.verified_preconditions ≡ true) ⊎ Meets s.policy name a
  pub item : (r.1).item_verified ≡ true → (s.item_verified ≡ true) ⊎ ShowsItem s.policy a
  pub recipient :
      (r.1).recipient_verified ≡ true → (s.recipient_verified ≡ true) ⊎ ShowsRecipient s.policy a
  pub guarded : IsGuarded s → IsGuarded r.1

pub Gated-same :
    (a : HandoffAction) (s : GuardedHandoffSession) (r : Result (Unit {0})) → Gated a s (r, s)
Gated-same a s r = record {
  policy = refl;
  check = λ name h. inl h;
  item = inl;
  recipient = inl;
  guarded = λ g. g;
}

-- An event is recorded behind the change.
pub Gated-record_event :
    (a : HandoffAction) (s s' : GuardedHandoffSession) (kind detail : String)
    (fields : List (String × String))
    → Gated a s (ok tt, s')
    → Gated a s (ok tt, record_event kind detail fields s')
unfolding record_event
Gated-record_event a s s' kind detail fields h = record {
  policy = h.policy;
  check = h.check;
  item = h.item;
  recipient = h.recipient;
  guarded = λ g. record { gates = (h.guarded g).gates };
}

contains-append :
    (name n : String) (xs : List String)
    → contains name (xs ++ n ∷ []) ≡ true
    → (contains name xs ≡ true) ⊎ (n ≡ name)
contains-append name n [] h = inr ((eq_iff n name).0 (ground arith))
contains-append name n (x ∷ xs) h = elim (Bool-cases (str_eq x name)) [
  | inl e ↦ inl (rw e refl)
  | inr e ↦ rw e (contains-append name n xs (simp e at h))
]

pub contains-add_name :
    (name n : String) (verified : List String)
    → contains name (add_name n verified) ≡ true
    → (contains name verified ≡ true) ⊎ (n ≡ name)
unfolding add_name
contains-add_name name n verified h = elim (Bool-cases (contains n verified)) [
  | inl there ↦ inl (simp there at h)
  | inr new ↦ contains-append name n verified (simp new at h)
]

-- A handler that goes on finds the container's gates still shut.
pub may_check-closed : (st : HandoffState) → may_check st ≡ true → is_open st ≡ false
may_check-closed st h = grind arith

pub may_scan_item-closed : (st : HandoffState) → may_scan_item st ≡ true → is_open st ≡ false
may_scan_item-closed st h = grind arith

pub may_resume-closed : (st : HandoffState) → may_resume st ≡ true → is_open st ≡ false
may_resume-closed st h = grind arith

pub may_scan_recipient-closed :
    (st : HandoffState) → may_scan_recipient st ≡ true → is_open st ≡ false
may_scan_recipient-closed st h = grind arith

is_unlocked-open : (st : HandoffState) → is_unlocked st ≡ true → is_open st ≡ true
is_unlocked-open st h = grind arith
