-- ===== src/Handoff/History.antt =====
-- guarded_handoff.py: the log of a session is a run of the machine.
use flyto_robotics.Prelude.{
  ℕ, ◌+◌, ◌≡◌, refl, sym, ap, ◌∙◌, String, true, List, [], ◌∷◌, ◌++◌, length, arith,
}
use mathlib.Core.Path.{subst}
use flyto_robotics.Python.{Result, ok, raised}
use flyto_robotics.Python.Platform.{Platform}
use flyto_robotics.Handoff.{
  HandoffState, awaiting_preconditions, GuardedHandoffPolicy, HandoffAction, HandoffEvent,
  GuardedHandoffSession, record_event,
}
use flyto_robotics.Handoff.Session.{next, apply, apply_all, new}
use flyto_robotics.Handoff.Moves.{may_move, IsCoherent, Moved, Moves, Moves-apply, IsCoherent-new}

-- Events that take the machine from one state to another, each along one of its moves, numbered on
-- from `n`.
abbrev pub IsRun : HandoffState → ℕ → List HandoffEvent → HandoffState → Type 0
IsRun a n [] b = a ≡ b
IsRun a n (e ∷ log) b =
    (may_move a e.state ≡ true) × (e.sequence ≡ n + 1) × IsRun e.state (n + 1) log b

-- The log starts with the first event of a session, and leads from its state to that of the session.
abbrev pub IsHistory : GuardedHandoffSession → Type 0
IsHistory s =
    (first : HandoffEvent) × (log : List HandoffEvent) × (s.events ≡ first ∷ log)
    × (first.kind ≡ "handoff_started")
    × (first.sequence ≡ 1)
    × (first.state ≡ awaiting_preconditions)
    × IsRun awaiting_preconditions 1 log s.state

module _ ⦃platform : Platform⦄ where
  IsRun-last :
      (a b : HandoffState) (n : ℕ) (log : List HandoffEvent) (e : HandoffEvent)
      → IsRun a n log b
      → may_move b e.state ≡ true
      → e.sequence ≡ n + length log + 1
      → IsRun a n (log ++ e ∷ []) e.state
  IsRun-last a b n [] e h move next = (
    subst (λ (x : HandoffState). may_move x e.state ≡ true) (sym h) move,
    omega (arith, next),
    refl,
  )
  IsRun-last a b n (x ∷ log) e (step, count, h) move next =
      (step, count, IsRun-last x.state b (n + 1) log e h move (omega (arith, next)))

  IsHistory-Moved : (s s' : GuardedHandoffSession) → Moved s s' → IsHistory s → IsHistory s'
  IsHistory-Moved s s' moved (first, log, same, kind, one, start, path) =
      let (e, longer, count, shown, _) = moved.event in
      let along : may_move s.state e.state ≡ true = rw shown moved.move in
      let counted : e.sequence ≡ 1 + length log + 1 = omega (arith, count, ap (length {0}) same) in
      (
        first,
        log ++ e ∷ [],
        longer ∙ ap (λ l. l ++ e ∷ []) same,
        kind,
        one,
        start,
        subst (IsRun awaiting_preconditions 1 (log ++ e ∷ [])) shown
            (IsRun-last awaiting_preconditions s.state 1 log e path along counted),
      )

  IsHistory-apply_all :
      (actions : List HandoffAction) (s : GuardedHandoffSession)
      → IsCoherent s
      → IsHistory s
      → IsHistory (apply_all actions s).1
  unfolding apply_all next
  IsHistory-apply_all [] s h r = r
  IsHistory-apply_all (a ∷ actions) s h r =
      behind (apply a s) (Moves-apply a s h) (IsHistory-apply_all actions)
    where
      behind :
          (q : Result (Unit {0}) × GuardedHandoffSession)
          → Moves s q
          → ((t : GuardedHandoffSession)
              → IsCoherent t
              → IsHistory t
              → IsHistory (apply_all actions t).1)
          → IsHistory (next q (apply_all actions)).1
      behind (raised e, t) m k = subst IsHistory (sym m) r
      behind (ok u, t) m k = k t m.coherent (IsHistory-Moved s t m r)

  -- The log of a new session, taken through any sequence of actions, starts with the event of the
  -- session's start, has the numbers 1, 2, 3 and so on, shows with each further event one of the
  -- machine's moves from the state that the event before it shows, and ends in the session's state.
  pub IsHistory-new :
      (policy : GuardedHandoffPolicy) (session_id : String) (actions : List HandoffAction)
      → IsHistory (apply_all actions (new policy session_id)).1
  unfolding new record_event
  IsHistory-new policy session_id actions =
      IsHistory-apply_all actions (new policy session_id) (IsCoherent-new policy session_id)
        (_, [], refl, refl, refl, refl, refl)
