-- ===== src/BridgeGuard/Origin.antt =====
-- Which signal the guard of bridge_guard.py forwards.
use flyto_robotics.Prelude.{
  ◌≡◌, refl, sym, ◌∙◌, ap, ℕ, suc, ◌+◌, true, false, Option, none, some, List, [], ◌∷◌, ◌++◌, arith,
  All, All-append, Option-cases, ltb, ◌⊎◌, inl, inr, if_ind, String,
}
use flyto_robotics.Prelude.Int.{ℤ}
use mathlib.Core.Path.{subst}
use flyto_robotics.Python.{Runtime, ok}
use flyto_robotics.BridgeGuard.{
  Effect, forward_signal, force_stop, StartupSignalGuard, GuardCall, observes, signals, ticks,
  ready, take_forward, guard_tick, see_markers, observe_output, handle_signal, guard_call,
  guard_calls, new_guard, marker_matches,
}
use flyto_robotics.BridgeGuard.Forwarding.{IsNew-new_guard, see_markers-Kept}

-- A forwarded signal is the one given.
abbrev pub IsOf : Option ℕ → Effect → Type 0
IsOf o (forward_signal signum reason) = o ≡ some signum
IsOf o force_stop = Unit

-- The first of two, if it is there.
abbrev first_of : Option ℕ → Option ℕ → Option ℕ
first_of none o = o
first_of (some n) o = some n

first_of-some : (o p : Option ℕ) (n : ℕ) → o ≡ some n → first_of o p ≡ some n
first_of-some none p n h = cc
first_of-some (some m) p n h = h

first_of-none : (o p : Option ℕ) → o ≡ none → first_of o p ≡ p
first_of-none none p h = refl
first_of-none (some m) p h = cc

first_of_nothing : (o : Option ℕ) → o ≡ first_of o none
first_of_nothing none = refl
first_of_nothing (some n) = refl

first_of_assoc : (a b c : Option ℕ) → first_of (first_of a b) c ≡ first_of a (first_of b c)
first_of_assoc none b c = refl
first_of_assoc (some n) b c = refl

IsOf-first_of : (o p : Option ℕ) (xs : List Effect) → All (IsOf o) xs → All (IsOf (first_of o p)) xs
IsOf-first_of o p [] h = tt
IsOf-first_of o p (forward_signal n r ∷ xs) (h, k) = (first_of-some o p n h, IsOf-first_of o p xs k)
IsOf-first_of o p (force_stop ∷ xs) (h, k) = (h, IsOf-first_of o p xs k)

module _ {F : Type 0} where
  -- The first signal among the calls.
  abbrev pub first_signal : List (GuardCall F) → Option ℕ
  first_signal [] = none
  first_signal (signals signum now ∷ es) = some signum
  first_signal (observes output now ∷ es) = first_signal es
  first_signal (ticks now ∷ es) = first_signal es

  first_signal_cons :
      (e : GuardCall F) (es : List (GuardCall F))
      → first_signal (e ∷ es) ≡ first_of (first_signal (e ∷ [])) (first_signal es)
  first_signal_cons (signals signum now) es = refl
  first_signal_cons (observes output now) es = refl
  first_signal_cons (ticks now) es = refl

module _ {F : Type 0} ⦃rt : Runtime F⦄ where
  -- A signal is held from the first on.
  abbrev IsHolding : StartupSignalGuard F → Type 0
  IsHolding g =
      ((g.signal_count ≡ 0) × (g.pending_signal ≡ none))
      ⊎ ((n : ℕ) × (s : ℕ) × (g.signal_count ≡ suc n) × (g.pending_signal ≡ some s))

  -- A call from `g` to `g'` with these effects, where `o` is the first signal that comes.
  record Originates (o : Option ℕ) (g : StartupSignalGuard F)
      (r : List Effect × StartupSignalGuard F) : Type 0 where
    effects : All (IsOf (r.1).pending_signal) r.0
    pending : (r.1).pending_signal ≡ first_of g.pending_signal o
    holding : IsHolding r.1

  guard_tick_origin :
      (now : F) (g : StartupSignalGuard F)
      → All (IsOf (guard_tick now g).1.pending_signal) (guard_tick now g).0
        × ((guard_tick now g).1.pending_signal ≡ g.pending_signal)
        × ((guard_tick now g).1.signal_count ≡ g.signal_count)
  unfolding guard_tick take_forward
  guard_tick_origin now g = elim (Option-cases g.pending_signal) [
    | inl h ↦ ground arith
    | inr (s, h) ↦ ground arith
  ]

  IsHolding-Kept :
      (g s : StartupSignalGuard F)
      → (s.signal_count ≡ g.signal_count)
      → (s.pending_signal ≡ g.pending_signal)
      → IsHolding g
      → IsHolding s
  IsHolding-Kept g s c p (inl (a, b)) = inl (c ∙ a, p ∙ b)
  IsHolding-Kept g s c p (inr (n, m, a, b)) = inr (n, m, c ∙ a, p ∙ b)

  Originates-guard_tick :
      (o : Option ℕ) (now : F) (g s : StartupSignalGuard F)
      → s.pending_signal ≡ first_of g.pending_signal o
      → IsHolding s
      → Originates o g (guard_tick now s)
  Originates-guard_tick o now g s p h =
      let (sent, pending, counted) = guard_tick_origin now s in
      record {
        effects = sent;
        pending = pending ∙ p;
        holding = IsHolding-Kept s (guard_tick now s).1 counted pending h;
      }

  -- A signal on a guard that has none yet, and on one that has.
  first_signal-Originates :
      (signum : ℕ) (now : F) (g : StartupSignalGuard F)
      → g.signal_count ≡ 0
      → g.pending_signal ≡ none
      → Originates (some signum) g (handle_signal signum now g).1
  unfolding handle_signal ready
  first_signal-Originates signum now g counted unsent =
      let held : StartupSignalGuard F = record g {
        signal_count = g.signal_count + 1;
        pending_signal = some signum;
      } in
      let holding : IsHolding held = inr (0, signum, omega (arith, counted), refl) in
      let p : some signum ≡ first_of g.pending_signal (some signum) =
        sym (first_of-none g.pending_signal (some signum) unsent) in
      let once : ltb 1 (g.signal_count + 1) ≡ false = ground arith in
      rw once (
        if_ind
          (λ (r : String × (List Effect × StartupSignalGuard F)). Originates (some signum) g r.1)
          (ready now g) {x = ("forwarded", guard_tick now held)} {y = ("buffered", ([], held))}
          (Originates-guard_tick (some signum) now g held p holding)
          (record { effects = tt; pending = p; holding = holding }))

  next_signal-Originates :
      (signum : ℕ) (now : F) (g : StartupSignalGuard F) (n s : ℕ)
      → g.signal_count ≡ suc n
      → g.pending_signal ≡ some s
      → Originates (some signum) g (handle_signal signum now g).1
  unfolding handle_signal
  next_signal-Originates signum now g n s counted sent =
      let again : ltb 1 (g.signal_count + 1) ≡ true = ground arith in
      rw again (record {
        effects = (tt, tt);
        pending = sent ∙ sym (first_of-some g.pending_signal (some signum) s sent);
        holding = inr (suc n, s, omega (arith, counted), sent);
      })

  guard_call-Originates :
      (e : GuardCall F) (g : StartupSignalGuard F)
      → IsHolding g
      → Originates (first_signal (e ∷ [])) g (guard_call e g)
  unfolding guard_call observe_output
  guard_call-Originates (ticks now) g h =
      Originates-guard_tick none now g g (first_of_nothing g.pending_signal) h
  guard_call-Originates (observes output now) g h =
      let seen = see_markers (marker_matches output) now g in
      let (same, counted, pending) = see_markers-Kept (marker_matches output) now g in
      Originates-guard_tick none now g seen (pending ∙ first_of_nothing g.pending_signal)
        (IsHolding-Kept g seen counted pending h)
  guard_call-Originates (signals signum now) g (inl (counted, unsent)) =
      first_signal-Originates signum now g counted unsent
  guard_call-Originates (signals signum now) g (inr (n, s, counted, sent)) =
      next_signal-Originates signum now g n s counted sent

  guard_calls_origin :
      (es : List (GuardCall F)) (g : StartupSignalGuard F)
      → IsHolding g
      → All (IsOf (first_of g.pending_signal (first_signal es))) (guard_calls es g).0
  unfolding guard_calls
  guard_calls_origin [] g h = tt
  guard_calls_origin (e ∷ es) g h =
      let r = guard_call e g in
      let origin = guard_call-Originates e g h in
      let later = first_of r.1.pending_signal (first_signal es) in
      let same : later ≡ first_of g.pending_signal (first_signal (e ∷ es)) =
        ap (λ o. first_of o (first_signal es)) origin.pending
        ∙ first_of_assoc g.pending_signal (first_signal (e ∷ [])) (first_signal es)
        ∙ ap (first_of g.pending_signal) (sym (first_signal_cons e es)) in
      subst (λ o. All (IsOf o) (r.0 ++ (guard_calls es r.1).0)) same
        (All-append (IsOf later) r.0 (guard_calls es r.1).0
          (IsOf-first_of r.1.pending_signal (first_signal es) r.0 origin.effects)
          (guard_calls_origin es r.1 origin.holding))

  -- Whatever a new guard forwards, over any sequence of calls, is the first signal that came.
  pub guard_calls-first_signal :
      (expected : ℤ) (at deadline quiet : F) (g : StartupSignalGuard F) (es : List (GuardCall F))
      → new_guard expected at deadline quiet ≡ ok g
      → All (IsOf (first_signal es)) (guard_calls es g).0
  guard_calls-first_signal expected at deadline quiet g es h =
      let (unforwarded, uncounted, unsent) = IsNew-new_guard expected at deadline quiet g h in
      subst (λ o. All (IsOf o) (guard_calls es g).0)
        (first_of-none g.pending_signal (first_signal es) unsent)
        (guard_calls_origin es g (inl (uncounted, unsent)))
