-- ===== src/BridgeGuard.antt =====
-- flyto_robotics/bridge_guard.py: the signal guard around the start of a bridge process, the inbox of
-- its signals, and the supervisor of the process group. What a method does behind its lock, a call
-- of a callback or a signal sent, is an effect that it returns with the new state.
pub mod Forwarding
pub mod Origin
pub mod Supervisor
use flyto_robotics.Prelude.{
  ℕ, suc, ◌+◌, String, Bool, true, false, not, ◌&&◌, ◌||◌, Option, none, some, List, [], ◌∷◌, ◌++◌,
  is_some, if◌then◌else◌, ltb, leb, ◌==◌, str_eq, codes, after_first, occurs_in,
}
use flyto_robotics.Prelude.Int.{ℤ, pos, negsuc, leb_ℤ, ltb_ℤ, neg_part}
use flyto_robotics.Python.{Runtime, Result, ok, raised, value_error}
use flyto_robotics.Python.Checks.{raise_if, ◌>>=◌, ◌>>◌}

-- The arguments before the ROS argument boundary.
abbrev bridge_arguments : List String → List String
bridge_arguments [] = []
bridge_arguments (argument ∷ arguments) =
    if str_eq argument "--ros-args" then [] else argument ∷ bridge_arguments arguments

abbrev is_specification : String → Bool
is_specification argument =
    occurs_in "@" argument && (occurs_in "[" argument || occurs_in "]" argument)

abbrev count_specifications : List String → ℕ
count_specifications [] = 0
count_specifications (argument ∷ arguments) =
    (if is_specification argument then 1 else 0) + count_specifications arguments

unfoldable pub infer_expected_markers : List String → ℕ
infer_expected_markers arguments = count_specifications (bridge_arguments arguments)

unfoldable pub shell_exit_code : ℤ → ℤ
shell_exit_code (pos n) = pos n
shell_exit_code (negsuc n) = pos (128 + suc n)

-- `Creating .* Bridge` on one line: the greedy match reaches the last ` Bridge`, so a line has one
-- match at most.
abbrev is_marker : List ℕ → Bool
is_marker line = elim (after_first (codes "Creating ") line) [
  | none ↦ false
  | some rest ↦ is_some (after_first (codes " Bridge") rest)
]

abbrev in_lines : List ℕ → List ℕ → ℕ
in_lines line [] = if is_marker line then 1 else 0
in_lines line (c ∷ s) =
    (if c == b'\n' && is_marker line then 1 else 0)
    + in_lines (if c == b'\n' then [] else line ++ c ∷ []) s

-- `len(READY_MARKER.findall(output))`
unfoldable pub marker_matches : String → ℕ
marker_matches output = in_lines [] (codes output)

pub data Effect : Type 0 where
  forward_signal : ℕ → String → Effect
  force_stop : Effect

pub record StartupSignalGuard (F : Type 0) : Type 0 where
  pub expected_markers : ℤ
  pub started_at : F
  pub startup_deadline_seconds : F
  pub quiet_period_seconds : F
  pub marker_count : ℕ
  pub last_marker_at : Option F
  pub pending_signal : Option ℕ
  pub signal_count : ℕ
  pub forwarded : Bool

-- A call of one of the guard's methods. The lock makes each one step.
pub data GuardCall (F : Type 0) : Type 0 where
  observes : String → F → GuardCall F
  signals : ℕ → F → GuardCall F
  ticks : F → GuardCall F

abbrev pub forward_effects : Option (ℕ × String) → List Effect
forward_effects none = []
forward_effects (some (signum, reason)) = forward_signal signum reason ∷ []

module _ {F : Type 0} ⦃rt : Runtime F⦄ where
  unfoldable pub new_guard : ℤ → F → F → F → Result (StartupSignalGuard F)
  new_guard expected_markers started_at startup_deadline_seconds quiet_period_seconds = do
    raise_if (ltb_ℤ expected_markers (pos 0)) (value_error "expected_markers cannot be negative")
    raise_if (rt.le startup_deadline_seconds (rt.decimal 0 0))
        (value_error "startup_deadline_seconds must be positive")
    raise_if (rt.lt quiet_period_seconds (rt.decimal 0 0))
        (value_error "quiet_period_seconds cannot be negative")
    ok (record {
      expected_markers = expected_markers;
      started_at = started_at;
      startup_deadline_seconds = startup_deadline_seconds;
      quiet_period_seconds = quiet_period_seconds;
      marker_count = 0;
      last_marker_at = none;
      pending_signal = none;
      signal_count = 0;
      forwarded = false;
    })

  abbrev quiet_since : Option F → F → F → Bool
  quiet_since none now period = false
  quiet_since (some last) now period = rt.le period (rt.sub now last)

  unfoldable pub ready : F → StartupSignalGuard F → Bool
  ready now g =
      (if leb_ℤ g.expected_markers (pos 0) && leb_ℤ (pos 0) g.expected_markers
        then ltb 0 g.marker_count
        else leb_ℤ g.expected_markers (pos g.marker_count))
      && quiet_since g.last_marker_at now g.quiet_period_seconds

  unfoldable pub deadline_passed : F → StartupSignalGuard F → Bool
  deadline_passed now g = rt.le g.startup_deadline_seconds (rt.sub now g.started_at)

  unfoldable pub take_forward :
      F → StartupSignalGuard F → Option (ℕ × String) × StartupSignalGuard F
  unfolding ready deadline_passed
  take_forward now g = elim g.pending_signal [
    | none ↦ (none, g)
    | some signum ↦
        if g.forwarded
        then (none, g)
        else if ready now g
        then (some (signum, "ready"), record g { forwarded = true })
        else if deadline_passed now g
        then (some (signum, "startup-deadline"), record g { forwarded = true })
        else (none, g)
  ]

  unfoldable pub guard_tick : F → StartupSignalGuard F → List Effect × StartupSignalGuard F
  unfolding take_forward
  guard_tick now g = let (action, g') = take_forward now g in (forward_effects action, g')

  unfoldable pub see_markers : ℕ → F → StartupSignalGuard F → StartupSignalGuard F
  see_markers matches now g =
      if ltb 0 matches
      then record g { marker_count = g.marker_count + matches; last_marker_at = some now }
      else g

  unfoldable pub observe_output :
      String → F → StartupSignalGuard F → List Effect × StartupSignalGuard F
  unfolding guard_tick see_markers marker_matches
  observe_output output now g = guard_tick now (see_markers (marker_matches output) now g)

  -- The outcome, with the effects and the state.
  unfoldable pub handle_signal :
      ℕ → F → StartupSignalGuard F → String × (List Effect × StartupSignalGuard F)
  unfolding guard_tick ready
  handle_signal signum now g =
      let counted : StartupSignalGuard F = record g { signal_count = g.signal_count + 1 } in
      let held : StartupSignalGuard F = record counted { pending_signal = some signum } in
      if ltb 1 counted.signal_count
      then ("forced", (force_stop ∷ [], counted))
      else if ready now counted
      then ("forwarded", guard_tick now held)
      else ("buffered", ([], held))

  unfoldable pub guard_call :
      GuardCall F → StartupSignalGuard F → List Effect × StartupSignalGuard F
  unfolding observe_output handle_signal guard_tick
  guard_call (observes output now) g = observe_output output now g
  guard_call (signals signum now) g = (handle_signal signum now g).1
  guard_call (ticks now) g = guard_tick now g

  unfoldable pub guard_calls :
      List (GuardCall F) → StartupSignalGuard F → List Effect × StartupSignalGuard F
  unfolding guard_call
  guard_calls [] g = ([], g)
  guard_calls (e ∷ es) g =
      let (effects, g') = guard_call e g in
      let (rest, g'') = guard_calls es g' in (effects ++ rest, g'')
