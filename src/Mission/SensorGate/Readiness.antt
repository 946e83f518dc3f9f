-- ===== src/Mission/SensorGate/Readiness.antt =====
-- When the gate of mission.py opens and shuts, and when it has nothing to report.
use flyto_robotics.Prelude.{
  ◌≡◌, refl, ◌↔◌, inl, inr, String, Bool, true, false, not, ◌&&◌, ◌||◌, Option, none, some, List,
  [], ◌∷◌, All, Bool-cases, arith,
}
use flyto_robotics.Python.{Runtime}
use flyto_robotics.Mission.SensorGate.{
  ready, fail_not_ready, fail_stale, GateInput, fresh, evaluate_sensor_gate, sensor_report,
  unready_sensors,
}

module _ {F : Type 0} ⦃rt : Runtime F⦄ where
  -- Fresh, and either under way or stable for long enough.
  abbrev pub may_drive : GateInput F → Bool
  may_drive g = fresh g && (g.control_started || rt.le g.stabilization_seconds g.ready_duration)

  -- The gate is open exactly if all samples are fresh and control has started or they have been so
  -- for the stabilization time. It fails as stale exactly if control has started and they are not
  -- fresh, and as not ready exactly if control has not started, the gate is not open, and the grace
  -- is over.
  pub evaluate_sensor_gate_lem :
      (g : GateInput F)
      → ((evaluate_sensor_gate g ≡ ready) ↔ (may_drive g ≡ true))
        × ((evaluate_sensor_gate g ≡ fail_stale) ↔ ((g.control_started && not (fresh g)) ≡ true))
        × ((evaluate_sensor_gate g ≡ fail_not_ready) ↔ (
            (not g.control_started && not (may_drive g) && rt.lt g.startup_grace g.startup_elapsed)
            ≡ true))
  unfolding evaluate_sensor_gate
  evaluate_sensor_gate_lem g = (
    (λ h. ground arith, λ h. ground arith),
    (λ h. ground arith, λ h. ground arith),
    (λ h. ground arith, λ h. ground arith),
  )

  -- The sensor has sent a sample that is not too old.
  abbrev pub IsSeen : F → F → String × Option F → Type 0
  IsSeen now timeout (name, none) = ⊥
  IsSeen now timeout (name, some sample_time) = rt.lt timeout (rt.sub now sample_time) ≡ false

  -- Nothing is reported exactly if every sensor has sent a sample that is not too old.
  pub unready_sensors_lem :
      (sensors : List (String × Option F)) (now timeout : F)
      → (unready_sensors sensors now timeout ≡ []) ↔ All (IsSeen now timeout) sensors
  unfolding unready_sensors sensor_report
  unready_sensors_lem [] now timeout = (λ h. tt, λ h. refl)
  unready_sensors_lem ((name, none) ∷ sensors) now timeout = (λ h. cc, λ h. absurd h.0)
  unready_sensors_lem ((name, some sample_time) ∷ sensors) now timeout =
      let (forth, back) = unready_sensors_lem sensors now timeout in
      elim (Bool-cases (rt.lt timeout (rt.sub now sample_time))) [
        | inl old ↦ (λ h. ground arith, λ h. cc (old, h.0))
        | inr new ↦ (λ h. (new, forth (simp new at h)), λ h. simp new (back h.1))
      ]
