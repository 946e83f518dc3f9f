-- ===== src/Handoff/Session.antt =====
-- flyto_robotics/guarded_handoff.py: `apply`, sequences of actions, and a new session.
use flyto_robotics.Prelude.{
  ℕ, ◌+◌, String, true, false, not, Option, none, some, List, [], ◌∷◌, if◌then◌else◌, length, ◌==◌,
  str_eq,
}
use flyto_robotics.Python.{Result, ok, raised, handoff_error, key_error, runtime_error}
use flyto_robotics.Python.Platform.{Platform}
use flyto_robotics.Handoff.{
  GuardedHandoffPolicy, GuardedHandoffSession, Handler, HandoffAction, awaiting_preconditions,
  check_precondition, complete, is_completed, record_event, resume_checkpoint, scan_item,
  scan_recipient, unlock_container,
}

-- The keys of the table of handlers.
pub data HandoffVerb : Type 0 where
  checks scans_item resumes scans_recipient unlocks completes : HandoffVerb

unfoldable pub verb_of : String → Option HandoffVerb
verb_of action =
    if str_eq action "check_precondition"
    then some checks
    else if str_eq action "scan_item"
    then some scans_item
    else if str_eq action "resume_checkpoint"
    then some resumes
    else if str_eq action "scan_recipient"
    then some scans_recipient
    else if str_eq action "unlock_container"
    then some unlocks
    else if str_eq action "complete"
    then some completes
    else none

-- The test behind a handler that has not raised: `before` is the length of the log before it.
unfoldable pub one_event :
    ℕ → Result (Unit {0}) × GuardedHandoffSession → Result (Unit {0}) × GuardedHandoffSession
one_event before (raised e, s) = (raised e, s)
one_event before (ok u, s) =
    if not (length s.events == before + 1)
    then (raised (runtime_error "each guarded handoff atom must emit exactly one event"), s)
    else (ok u, s)

-- Go on behind a call that has not raised.
unfoldable pub next :
    Result (Unit {0}) × GuardedHandoffSession → Handler → Result (Unit {0}) × GuardedHandoffSession
next (raised e, s) rest = (raised e, s)
next (ok u, s) rest = rest s

module _ ⦃platform : Platform⦄ where
  -- `handlers[action.action](action)`
  unfoldable pub handle : Option HandoffVerb → HandoffAction → Handler
  unfolding check_precondition scan_item resume_checkpoint scan_recipient unlock_container complete
  handle none action s = (raised (key_error action.action), s)
  handle (some checks) action s = check_precondition action s
  handle (some scans_item) action s = scan_item action s
  handle (some resumes) action s = resume_checkpoint action s
  handle (some scans_recipient) action s = scan_recipient action s
  handle (some unlocks) action s = unlock_container action s
  handle (some completes) action s = complete action s

  -- `apply`: the handler, and the test that it has recorded one event. The event that the method
  -- returns is the last of the log.
  unfoldable pub apply : HandoffAction → Handler
  unfolding handle verb_of one_event
  apply action s =
      if is_completed s.state
      then (raised (handoff_error "completed handoff rejects additional actions"), s)
      else one_event (length s.events) (handle (verb_of action.action) action s)

  -- The loop over the script's actions: the first exception ends it.
  unfoldable pub apply_all : List HandoffAction → Handler
  unfolding apply next
  apply_all [] s = (ok tt, s)
  apply_all (action ∷ actions) s = next (apply action s) (apply_all actions)

-- `GuardedHandoffSession(policy, session_id=session_id)`, for an id that passes the check
unfoldable pub new : GuardedHandoffPolicy → String → GuardedHandoffSession
unfolding record_event
new policy session_id =
    record_event "handoff_started" "guarded handoff session started" [] (record {
      policy = policy;
      session_id = session_id;
      state = awaiting_preconditions;
      container_locked = true;
      checkpoint = none;
      verified_preconditions = [];
      item_verified = false;
      recipient_verified = false;
      events = [];
    })
