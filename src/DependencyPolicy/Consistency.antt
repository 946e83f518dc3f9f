-- ===== src/DependencyPolicy/Consistency.antt =====
-- What an assessment of dependency_policy.py owes its contract.
use flyto_robotics.Prelude.{
  ◌≡◌, refl, String, Bool, true, false, not, ◌||◌, [], ◌∷◌, contains, str_eq, Bool-cases, inl, inr,
  ◌⊎◌, if_ind, arith, eq_iff,
}
use flyto_robotics.Python.{Runtime}
use flyto_robotics.Python.Checks.{OkAnd, OkAnd-bind, OkAnd-trivial}
use flyto_robotics.DependencyPolicy.{
  DependencyContract, DependencyAssessment, bounded_float, scope_identifier,
}
use flyto_robotics.DependencyPolicy.Assessment.{
  derived_band, must_stop, requires_human, may_substitute, action_for, Observation, phase_value,
  in_scope, is_ready, assess, assess_device_dependency,
}

-- The actions that let the robot go on.
abbrev pub goes_on : String → Bool
goes_on action = contains action (
    "use_resource" ∷ "ignore_outside_scope" ∷ "switch_substitute" ∷ "continue_degraded"
    ∷ "continue_without_resource" ∷ [])

module _ {F : Type 0} where
  -- An assessment that has to stop does not let the robot go on, has a critical band and asks for a
  -- human; one that asks for no human lets the robot go on.
  pub record IsConsistent (c : DependencyContract F) (a : DependencyAssessment) : Type 0 where
    pub halts : a.must_stop ≡ true → goes_on a.action ≡ false
    pub in_band :
        a.must_stop ≡ true
        → contains a.derived_band ("mission_critical" ∷ "safety_critical" ∷ []) ≡ true
    pub asks : a.must_stop ≡ true → a.requires_human ≡ true
    pub quiet : a.requires_human ≡ false → goes_on a.action ≡ true

or_true : (b : Bool) → (b || true) ≡ true
or_true true = refl
or_true false = refl

module _ {F : Type 0} where
  -- Why a contract stops the robot.
  must_stop_cases :
      (c : DependencyContract F)
      → must_stop c ≡ true
      → (c.safety_impact ≡ "stop") ⊎ (c.safety_impact ≡ "abort") ⊎ (c.task_impact ≡ "invalidate")
  must_stop_cases c h = elim (Bool-cases (str_eq c.safety_impact "stop")) [
    | inl a ↦ inl ((eq_iff c.safety_impact "stop").0 a)
    | inr a ↦ elim (Bool-cases (str_eq c.safety_impact "abort")) [
      | inl b ↦ inr (inl ((eq_iff c.safety_impact "abort").0 b))
      | inr b ↦ inr (inr ((eq_iff c.task_impact "invalidate").0 (simp (a, b) at h)))
    ]
  ]

  must_stop-requires_human :
      (c : DependencyContract F) → must_stop c ≡ true → requires_human c ≡ true
  must_stop-requires_human c h = elim (must_stop_cases c h) [
    | inl e ↦ rw e refl
    | inr (inl e) ↦ rw e refl
    | inr (inr e) ↦ rw e (or_true (not (str_eq c.safety_impact "none")))
  ]

  must_stop_band :
      (c : DependencyContract F)
      → must_stop c ≡ true
      → contains (derived_band c) ("mission_critical" ∷ "safety_critical" ∷ []) ≡ true
  unfolding derived_band
  must_stop_band c h =
      let Critical : String → Type 0 =
        λ band. contains band ("mission_critical" ∷ "safety_critical" ∷ []) ≡ true in
      elim (must_stop_cases c h) [
        | inl e ↦ rw e (if_ind Critical (str_eq c.task_impact "invalidate") refl refl)
        | inr (inl e) ↦ rw e refl
        | inr (inr e) ↦ rw (e, or_true (str_eq c.safety_impact "abort")) refl
      ]

  action_for-must_stop :
      (c : DependencyContract F) (b : Bool) → must_stop c ≡ true → goes_on (action_for c b) ≡ false
  unfolding action_for
  action_for-must_stop c true h = rw h refl
  action_for-must_stop c false h =
      let Halting : String → Type 0 = λ action. goes_on action ≡ false in
      elim (must_stop_cases c h) [
        | inl e ↦ rw e refl
        | inr (inl e) ↦ rw e refl
        | inr (inr e) ↦ rw e (
            if_ind Halting (str_eq c.safety_impact "abort") refl (
              if_ind Halting (str_eq c.safety_impact "stop") refl
                (if_ind Halting (str_eq c.safety_impact "pause") refl refl)))
      ]

  calm_cases :
      (c : DependencyContract F)
      → requires_human c ≡ false
      → (c.safety_impact ≡ "none")
        × (str_eq c.task_impact "block" ≡ false)
        × (str_eq c.task_impact "invalidate" ≡ false)
  calm_cases c h =
      let calm : str_eq c.safety_impact "none" ≡ true = ground arith in
      ((eq_iff c.safety_impact "none").0 calm, ground arith, ground arith)

  action_for_calm :
      (c : DependencyContract F) (b : Bool)
      → requires_human c ≡ false
      → goes_on (action_for c b) ≡ true
  unfolding action_for
  action_for_calm c true h = let (e, x, y) = calm_cases c h in rw (e, y) refl
  action_for_calm c false h =
      let (e, x, y) = calm_cases c h in
      rw (e, y, x)
        (if_ind (λ action. goes_on action ≡ true) (str_eq c.task_impact "degrade") refl refl)

module _ {F : Type 0} ⦃rt : Runtime F⦄ where
  IsConsistent-assess :
      (c : DependencyContract F) (o : Observation F) (confidence age : F)
      → IsConsistent c (assess c o confidence age)
  unfolding assess
  IsConsistent-assess c o confidence age =
      if_ind (IsConsistent c) (not (in_scope c o.phase))
        (record { halts = λ h. cc; in_band = λ h. cc; asks = λ h. cc; quiet = λ h. refl })
        (if_ind (IsConsistent c) (is_ready c o confidence age)
          (record { halts = λ h. cc; in_band = λ h. cc; asks = λ h. cc; quiet = λ h. refl })
          (record {
            halts =
                action_for-must_stop c (
                  may_substitute c o.fallback_available o.fallback_equivalent o.fallback_validated);
            in_band = must_stop_band c;
            asks = must_stop-requires_human c;
            quiet =
                action_for_calm c (
                  may_substitute c o.fallback_available o.fallback_equivalent o.fallback_validated);
          }))

  -- Whatever is observed, an assessment that the function returns and that has to stop does not let
  -- the robot go on, has a critical band and asks for a human, and one that asks for no human lets
  -- the robot go on.
  pub IsConsistent-assess_device_dependency :
      (c : DependencyContract F) (o : Observation F)
      → OkAnd (IsConsistent c) (assess_device_dependency c o)
  unfolding assess_device_dependency
  IsConsistent-assess_device_dependency c o =
      OkAnd-bind _ (λ _. Unit) (scope_identifier (phase_value o) "phase") _ (OkAnd-trivial _)
        λ phase _.
          OkAnd-bind _ (λ _. Unit)
            (bounded_float o.confidence "confidence" (rt.decimal 0 1) (rt.decimal 10 1)) _
            (OkAnd-trivial _)
            λ confidence _.
              OkAnd-bind _ (λ _. Unit)
                (bounded_float o.observation_age_seconds "observation_age_seconds" (rt.decimal 0 1)
                  (rt.decimal 864000 1))
                _ (OkAnd-trivial _) λ age _. IsConsistent-assess c o confidence age
