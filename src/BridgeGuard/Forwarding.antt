-- ===== src/BridgeGuard/Forwarding.antt =====
-- What the guard of bridge_guard.py forwards, over any sequence of its calls.
use flyto_robotics.Prelude.{
  ◌≡◌, ℕ, suc, ◌+◌, ◌-◌, Bool, true, false, inl, inr, none, some, List, [], ◌∷◌, ◌++◌, arith,
  Option-cases, Bool-cases, not, ◌&&◌, ◌||◌, is_some, ltb,
}
use mathlib.Core.Path.{subst}
use flyto_robotics.Prelude.Int.{ℤ, pos, ltb_ℤ}
use flyto_robotics.Python.{Runtime, ok}
use flyto_robotics.BridgeGuard.{
  Effect, forward_signal, force_stop, StartupSignalGuard, GuardCall, observes, signals, ticks,
  ready, deadline_passed, take_forward, guard_tick, see_markers, observe_output, handle_signal,
  guard_call, guard_calls, new_guard, marker_matches,
}

abbrev pub forwards : List Effect → ℕ
forwards [] = 0
forwards (forward_signal signum reason ∷ es) = suc (forwards es)
forwards (force_stop ∷ es) = forwards es

abbrev pub stops : List Effect → ℕ
stops [] = 0
stops (forward_signal signum reason ∷ es) = stops es
stops (force_stop ∷ es) = suc (stops es)

forwards-append : (xs ys : List Effect) → forwards (xs ++ ys) ≡ forwards xs + forwards ys
forwards-append [] ys = omega arith
forwards-append (forward_signal n r ∷ xs) ys = omega (arith, forwards-append xs ys)
forwards-append (force_stop ∷ xs) ys = omega (arith, forwards-append xs ys)

stops-append : (xs ys : List Effect) → stops (xs ++ ys) ≡ stops xs + stops ys
stops-append [] ys = omega arith
stops-append (forward_signal n r ∷ xs) ys = omega (arith, stops-append xs ys)
stops-append (force_stop ∷ xs) ys = omega (arith, stops-append xs ys)

abbrev pub count : Bool → ℕ
count true = 1
count false = 0

module _ {F : Type 0} where
  -- How many of the calls bring a signal.
  abbrev pub signals_in : List (GuardCall F) → ℕ
  signals_in [] = 0
  signals_in (signals signum now ∷ es) = suc (signals_in es)
  signals_in (observes output now ∷ es) = signals_in es
  signals_in (ticks now ∷ es) = signals_in es

  signals_in_cons :
      (e : GuardCall F) (es : List (GuardCall F))
      → signals_in (e ∷ es) ≡ signals_in (e ∷ []) + signals_in es
  signals_in_cons (signals signum now) es = omega arith
  signals_in_cons (observes output now) es = omega arith
  signals_in_cons (ticks now) es = omega arith

module _ {F : Type 0} ⦃rt : Runtime F⦄ where
  -- The forwarded signals of one call, counted by the guard's own flag.
  abbrev Tallied : StartupSignalGuard F → List Effect × StartupSignalGuard F → Type 0
  Tallied g r =
      (forwards r.0 + count g.forwarded ≡ count (r.1).forwarded)
      × (stops r.0 + (g.signal_count - 1) ≡ (r.1).signal_count - 1)

  guard_tick-Tallied : (now : F) (g : StartupSignalGuard F) → Tallied g (guard_tick now g)
  unfolding guard_tick take_forward
  guard_tick-Tallied now g = elim (Option-cases g.pending_signal) [
    | inl h ↦ ground arith
    | inr (s, h) ↦ ground arith
  ]

  -- What an observation leaves alone.
  abbrev pub Kept : StartupSignalGuard F → StartupSignalGuard F → Type 0
  Kept g g' =
      (g'.forwarded ≡ g.forwarded)
      × (g'.signal_count ≡ g.signal_count)
      × (g'.pending_signal ≡ g.pending_signal)

  pub see_markers-Kept : (n : ℕ) (now : F) (g : StartupSignalGuard F) → Kept g (see_markers n now g)
  unfolding see_markers
  see_markers-Kept n now g = elim (Bool-cases (ltb 0 n)) [
    | inl h ↦ ground arith
    | inr h ↦ ground arith
  ]

  Tallied-Kept :
      (g g' : StartupSignalGuard F) (r : List Effect × StartupSignalGuard F)
      → Kept g g'
      → Tallied g' r
      → Tallied g r
  Tallied-Kept g g' r (same, counted, pending) (h, k) = (
    subst (λ b. forwards r.0 + count b ≡ count (r.1).forwarded) same h,
    subst (λ n. stops r.0 + (n - 1) ≡ (r.1).signal_count - 1) counted k,
  )

  guard_call-Tallied : (e : GuardCall F) (g : StartupSignalGuard F) → Tallied g (guard_call e g)
  unfolding guard_call observe_output handle_signal see_markers
  guard_call-Tallied (ticks now) g = guard_tick-Tallied now g
  guard_call-Tallied (observes output now) g =
      let seen = see_markers (marker_matches output) now g in
      Tallied-Kept g seen (guard_tick now seen) (see_markers-Kept (marker_matches output) now g)
        (guard_tick-Tallied now seen)
  guard_call-Tallied (signals signum now) g =
      let held : StartupSignalGuard F = record g {
        signal_count = g.signal_count + 1;
        pending_signal = some signum;
      } in
      let tallied = guard_tick-Tallied now held in
      elim (Bool-cases (ltb 1 (g.signal_count + 1))) [
        | inl h ↦ ground arith
        | inr h ↦ elim (Bool-cases (ready now g)) [ inl k ↦ ground arith | inr k ↦ ground arith ]
      ]

  guard_calls-Tallied :
      (es : List (GuardCall F)) (g : StartupSignalGuard F) → Tallied g (guard_calls es g)
  unfolding guard_calls
  guard_calls-Tallied [] g = (omega arith, omega arith)
  guard_calls-Tallied (e ∷ es) g =
      let r = guard_call e g in
      let (h, k) = guard_call-Tallied e g in
      let (h', k') = guard_calls-Tallied es r.1 in
      (
        omega (arith, forwards-append r.0 (guard_calls es r.1).0, h, h'),
        omega (arith, stops-append r.0 (guard_calls es r.1).0, k, k'),
      )

  guard_tick-Counted :
      (now : F) (g : StartupSignalGuard F)
      → ((guard_tick now g).1.signal_count ≡ g.signal_count)
        × ((guard_tick now g).1.pending_signal ≡ g.pending_signal)
  unfolding guard_tick take_forward
  guard_tick-Counted now g = elim (Option-cases g.pending_signal) [
    | inl h ↦ ground arith
    | inr (s, h) ↦ ground arith
  ]

  guard_call_counts :
      (e : GuardCall F) (g : StartupSignalGuard F)
      → (guard_call e g).1.signal_count ≡ signals_in (e ∷ []) + g.signal_count
  unfolding guard_call observe_output handle_signal
  guard_call_counts (ticks now) g = omega (arith, (guard_tick-Counted now g).0)
  guard_call_counts (observes output now) g =
      let (same, counted, pending) = see_markers-Kept (marker_matches output) now g in
      omega (arith, counted, (guard_tick-Counted now (see_markers (marker_matches output) now g)).0)
  guard_call_counts (signals signum now) g =
      let held : StartupSignalGuard F = record g {
        signal_count = g.signal_count + 1;
        pending_signal = some signum;
      } in
      let counted = (guard_tick-Counted now held).0 in
      elim (Bool-cases (ltb 1 (g.signal_count + 1))) [
        | inl h ↦ ground arith
        | inr h ↦ elim (Bool-cases (ready now g)) [ inl k ↦ ground arith | inr k ↦ ground arith ]
      ]

  guard_calls_count :
      (es : List (GuardCall F)) (g : StartupSignalGuard F)
      → (guard_calls es g).1.signal_count ≡ signals_in es + g.signal_count
  unfolding guard_calls
  guard_calls_count [] g = omega arith
  guard_calls_count (e ∷ es) g =
      omega (
        arith,
        guard_call_counts e g,
        guard_calls_count es (guard_call e g).1,
        signals_in_cons e es,
      )

  abbrev pub IsNew : StartupSignalGuard F → Type 0
  IsNew g = (g.forwarded ≡ false) × (g.signal_count ≡ 0) × (g.pending_signal ≡ none)

  pub IsNew-new_guard :
      (expected : ℤ) (at deadline quiet : F) (g : StartupSignalGuard F)
      → new_guard expected at deadline quiet ≡ ok g
      → IsNew g
  unfolding new_guard
  IsNew-new_guard expected at deadline quiet g h = elim (Bool-cases (ltb_ℤ expected (pos 0))) [
    | inl a ↦ ground arith
    | inr a ↦ elim (Bool-cases (rt.le deadline (rt.decimal 0 0))) [
      | inl b ↦ ground arith
      | inr b ↦ elim (Bool-cases (rt.lt quiet (rt.decimal 0 0))) [
        | inl c ↦ ground arith
        | inr c ↦ ground arith
      ]
    ]
  ]

  -- Over any sequence of calls on a new guard, the callback that forwards is called once if the
  -- guard's flag says so and else not at all, and the child is stopped by force once for each
  -- signal but the first.
  pub guard_calls_effects :
      (expected : ℤ) (at deadline quiet : F) (g : StartupSignalGuard F) (es : List (GuardCall F))
      → new_guard expected at deadline quiet ≡ ok g
      → (forwards (guard_calls es g).0 ≡ count (guard_calls es g).1.forwarded)
        × (stops (guard_calls es g).0 ≡ signals_in es - 1)
  guard_calls_effects expected at deadline quiet g es h =
      let (unforwarded, uncounted, unsent) = IsNew-new_guard expected at deadline quiet g h in
      let (a, b) = guard_calls-Tallied es g in
      let flag : forwards (guard_calls es g).0 + 0 ≡ count (guard_calls es g).1.forwarded =
        subst (λ f. forwards (guard_calls es g).0 + count f ≡ count (guard_calls es g).1.forwarded)
          unforwarded a in
      (omega (arith, flag), omega (arith, uncounted, b, guard_calls_count es g))

  -- A tick forwards exactly if a signal is held that was not forwarded yet, and either the bridge is
  -- ready or the deadline of its start has passed.
  pub guard_tick_due :
      (now : F) (g : StartupSignalGuard F)
      → forwards (guard_tick now g).0
        ≡ count
            (is_some g.pending_signal && not g.forwarded && (ready now g || deadline_passed now g))
  unfolding guard_tick take_forward
  guard_tick_due now g = elim (Option-cases g.pending_signal) [
    | inl h ↦ ground arith
    | inr (s, h) ↦ ground arith
  ]
