-- ===== src/BridgeGuard/Supervisor.antt =====
-- bridge_guard.py: `TerminationSignalInbox` and `ProcessGroupSupervisor`. The clock and the answer of
-- `child.poll()` are inputs of the methods that ask for them, and the signals sent to the process
-- group are returned. A process group that is gone takes a signal without an effect.
use flyto_robotics.Prelude.{
  ◌≡◌, sym, ap, ◌∙◌, ℕ, ◌+◌, Bool, true, false, not, ◌&&◌, Option, none, some, List, [], ◌∷◌, ◌++◌,
  is_some, if◌then◌else◌, ◌==◌, arith, Bool-cases, inl, inr, All,
}
use mathlib.Core.List.{append-nil, append_assoc}
use flyto_robotics.Python.{Runtime, Result, ok, value_error}
use flyto_robotics.Python.Checks.{raise_if, ◌>>◌}

-- The signals of the deque, oldest first.
pub record TerminationSignalInbox : Type 0 where
  pub queued : List ℕ

unfoldable pub record_signal : ℕ → TerminationSignalInbox → TerminationSignalInbox
record_signal signum inbox = record { queued = inbox.queued ++ signum ∷ [] }

-- The loop of `drain`: take from the left until nothing is left.
abbrev drain_queue : List ℕ → List ℕ → List ℕ
drain_queue taken [] = taken
drain_queue taken (signum ∷ queued) = drain_queue (taken ++ signum ∷ []) queued

unfoldable pub drain : TerminationSignalInbox → List ℕ × TerminationSignalInbox
drain inbox = (drain_queue [] inbox.queued, record { queued = [] })

pub data InboxCall : Type 0 where
  records : ℕ → InboxCall
  drains : InboxCall

-- What the calls have drained, one after the other, and the inbox.
unfoldable pub inbox_calls :
    List InboxCall → TerminationSignalInbox → List ℕ × TerminationSignalInbox
unfolding record_signal drain
inbox_calls [] inbox = ([], inbox)
inbox_calls (records signum ∷ es) inbox = inbox_calls es (record_signal signum inbox)
inbox_calls (drains ∷ es) inbox =
    let (taken, inbox') = drain inbox in
    let (rest, inbox'') = inbox_calls es inbox' in (taken ++ rest, inbox'')

abbrev pub recorded : List InboxCall → List ℕ
recorded [] = []
recorded (records signum ∷ es) = signum ∷ recorded es
recorded (drains ∷ es) = recorded es

drain_queue-append : (taken queued : List ℕ) → drain_queue taken queued ≡ taken ++ queued
drain_queue-append taken [] = sym (append-nil taken)
drain_queue-append taken (s ∷ queued) =
    drain_queue-append (taken ++ s ∷ []) queued ∙ append_assoc taken (s ∷ []) queued

-- Whatever order signals are recorded and drained in, none is lost, doubled or moved: what was drained
-- and then what is queued are what was queued and then what was recorded.
pub inbox_calls_order :
    (es : List InboxCall) (inbox : TerminationSignalInbox)
    → (inbox_calls es inbox).0 ++ (inbox_calls es inbox).1.queued ≡ inbox.queued ++ recorded es
unfolding inbox_calls record_signal drain
inbox_calls_order [] inbox = sym (append-nil inbox.queued)
inbox_calls_order (records signum ∷ es) inbox =
    inbox_calls_order es (record_signal signum inbox)
    ∙ append_assoc inbox.queued (signum ∷ []) (recorded es)
inbox_calls_order (drains ∷ es) inbox =
    let rest = inbox_calls es (record { queued = [] }) in
    append_assoc (drain_queue [] inbox.queued) rest.0 rest.1.queued
    ∙ ap (λ xs. xs ++ (rest.0 ++ rest.1.queued)) (drain_queue-append [] inbox.queued)
    ∙ ap (λ xs. inbox.queued ++ xs) (inbox_calls_order es (record { queued = [] }))

pub record ProcessGroupSupervisor (F : Type 0) : Type 0 where
  pub shutdown_grace_seconds : F
  pub shutdown_deadline : Option F
  pub forced : Bool

-- `signal.SIGKILL`
abbrev pub sigkill : ℕ
sigkill = 9

module _ {F : Type 0} ⦃rt : Runtime F⦄ where
  pub new_supervisor : F → Result (ProcessGroupSupervisor F)
  new_supervisor shutdown_grace_seconds = do
    raise_if (rt.le shutdown_grace_seconds (rt.decimal 0 0))
        (value_error "shutdown_grace_seconds must be positive")
    ok (record {
      shutdown_grace_seconds = shutdown_grace_seconds;
      shutdown_deadline = none;
      forced = false;
    })

  -- Each method gives the signals that it sends, in order.
  unfoldable pub forward : ℕ → F → ProcessGroupSupervisor F → List ℕ × ProcessGroupSupervisor F
  forward signum monotonic s = (
    signum ∷ [],
    (if is_some s.shutdown_deadline
        then s
        else record s { shutdown_deadline = some (rt.add monotonic s.shutdown_grace_seconds) }),
  )

  unfoldable pub force : ProcessGroupSupervisor F → List ℕ × ProcessGroupSupervisor F
  force s = if not s.forced then (sigkill ∷ [], record s { forced = true }) else ([], s)

  abbrev pub deadline_reached : Option F → F → Bool
  deadline_reached none monotonic = false
  deadline_reached (some deadline) monotonic = rt.le deadline monotonic

  unfoldable pub overdue : F → Bool → ProcessGroupSupervisor F → Bool
  overdue monotonic running s =
      deadline_reached s.shutdown_deadline monotonic && running && not s.forced

  -- `tick`: what it reports, what it sends, and the state.
  unfoldable pub supervisor_tick :
      F → Bool → ProcessGroupSupervisor F → Bool × (List ℕ × ProcessGroupSupervisor F)
  unfolding overdue force
  supervisor_tick monotonic running s =
      (overdue monotonic running s, (if overdue monotonic running s then force s else ([], s)))

  -- `cleanup` then waits for the child.
  unfoldable pub cleanup : Bool → ProcessGroupSupervisor F → List ℕ × ProcessGroupSupervisor F
  unfolding force
  cleanup running s = if running then force s else ([], s)

pub data SupervisorCall (F : Type 0) : Type 0 where
  forwards : ℕ → F → SupervisorCall F
  forces : SupervisorCall F
  ticks : F → Bool → SupervisorCall F
  cleans : Bool → SupervisorCall F

abbrev pub kills : List ℕ → ℕ
kills [] = 0
kills (signum ∷ sent) = (if signum == sigkill then 1 else 0) + kills sent

-- A forwarded signal is one that asks, and not SIGKILL itself.
abbrev pub IsPolite : {F : Type 0} → SupervisorCall F → Type 0
IsPolite (forwards signum monotonic) = (signum == sigkill) ≡ false
IsPolite _ = Unit

module _ {F : Type 0} ⦃rt : Runtime F⦄ where
  unfoldable pub supervisor_call :
      SupervisorCall F → ProcessGroupSupervisor F → List ℕ × ProcessGroupSupervisor F
  unfolding forward force supervisor_tick cleanup
  supervisor_call (forwards signum monotonic) s = forward signum monotonic s
  supervisor_call forces s = force s
  supervisor_call (ticks monotonic running) s = (supervisor_tick monotonic running s).1
  supervisor_call (cleans running) s = cleanup running s

  unfoldable pub supervisor_calls :
      List (SupervisorCall F) → ProcessGroupSupervisor F → List ℕ × ProcessGroupSupervisor F
  unfolding supervisor_call
  supervisor_calls [] s = ([], s)
  supervisor_calls (e ∷ es) s =
      let (sent, s') = supervisor_call e s in
      let (rest, s'') = supervisor_calls es s' in (sent ++ rest, s'')

kills-append : (xs ys : List ℕ) → kills (xs ++ ys) ≡ kills xs + kills ys
kills-append [] ys = omega arith
kills-append (x ∷ xs) ys = omega (arith, kills-append xs ys)

abbrev pub once : Bool → ℕ
once true = 1
once false = 0

module _ {F : Type 0} ⦃rt : Runtime F⦄ where
  kills-supervisor_call :
      (e : SupervisorCall F) (s : ProcessGroupSupervisor F)
      → IsPolite e
      → kills (supervisor_call e s).0 + once s.forced ≡ once (supervisor_call e s).1.forced
  unfolding supervisor_call forward force supervisor_tick overdue cleanup
  kills-supervisor_call (forwards signum monotonic) s h =
      elim (Bool-cases (is_some s.shutdown_deadline)) [
        | inl k ↦ ground arith
        | inr k ↦ ground arith
      ]
  kills-supervisor_call forces s h = ground arith
  kills-supervisor_call (ticks monotonic running) s h = ground arith
  kills-supervisor_call (cleans running) s h = ground arith

  -- Over any sequence of calls that forward no SIGKILL, SIGKILL is sent once if the supervisor has
  -- newly forced the shutdown, and else not at all.
  pub supervisor_calls_kill :
      (es : List (SupervisorCall F)) (s : ProcessGroupSupervisor F)
      → All IsPolite es
      → kills (supervisor_calls es s).0 + once s.forced ≡ once (supervisor_calls es s).1.forced
  unfolding supervisor_calls
  supervisor_calls_kill [] s h = omega arith
  supervisor_calls_kill (e ∷ es) s (h, k) =
      let r = supervisor_call e s in
      omega (
        arith,
        kills-append r.0 (supervisor_calls es r.1).0,
        kills-supervisor_call e s h,
        supervisor_calls_kill es r.1 k,
      )
