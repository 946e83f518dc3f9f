-- ===== src/DependencyPolicy/Validity.antt =====
-- What a parsed dependency contract satisfies.
use flyto_robotics.Prelude.{
  ◌≡◌, refl, ℕ, String, Bool, true, ◌&&◌, List, length, leb, Option, or_else, contains, All, arith,
  Bool-cases, inl, inr,
}
use flyto_robotics.Prelude.Int.{pos, leb_ℤ}
use flyto_robotics.Python.{
  Value, null, flag, integer, number, text, array, object, Items, nil, cons, Fields, Runtime,
}
use flyto_robotics.Python.Checks.{OkAnd, OkAnd-bind, OkAnd-trivial, OkAnd-test}
use flyto_robotics.Python.Mappings.{field, items, items_length}
use flyto_robotics.DependencyPolicy.{
  DependencyContract, safety_impacts, task_impacts, evidence_requirements, substitution_modes,
  choice, is_scope, scope_identifier, float_of, bounded_float, retry_of, phase_items, phases_of,
  observer_default, parse_fields, from_mapping, minimum_confidence_of, max_age_seconds_of,
  recovery_timeout_seconds_of, safety_impact_of, task_impact_of, evidence_requirement_of,
  substitution_mode_of, retry_limit_of, raw_phases_of, check_names,
}

abbrev Countable : ℕ → Type 0
Countable n = (leb 1 n && leb n 32) ≡ true

module _ {F : Type 0} ⦃rt : Runtime F⦄ where
  -- `minimum <= x <= maximum`
  abbrev pub within : F → F → F → Bool
  within minimum maximum x = rt.le minimum x && rt.le x maximum

  pub record IsContract (c : DependencyContract F) : Type 0 where
    pub safety : contains c.safety_impact safety_impacts ≡ true
    pub task : contains c.task_impact task_impacts ≡ true
    pub evidence : contains c.evidence_requirement evidence_requirements ≡ true
    pub substitution : contains c.substitution_mode substitution_modes ≡ true
    pub confidence : within (rt.decimal 0 1) (rt.decimal 10 1) c.minimum_confidence ≡ true
    pub age : within (rt.decimal 5 2) (rt.decimal 36000 1) c.max_age_seconds ≡ true
    pub recovery : within (rt.decimal 0 1) (rt.decimal 36000 1) c.recovery_timeout_seconds ≡ true
    pub retry : (leb_ℤ (pos 0) c.retry_limit && leb_ℤ c.retry_limit (pos 10)) ≡ true
    pub count : (leb 1 (length c.active_phases) && leb (length c.active_phases) 32) ≡ true
    pub phases : All (λ phase. is_scope phase ≡ true) c.active_phases

  choice-contains :
      (v : Value F) (field_name : String) (choices : List String)
      → OkAnd (λ value. contains value choices ≡ true) (choice v field_name choices)
  unfolding choice
  choice-contains (text value) field_name choices = OkAnd-test _ (contains value choices) _ _ λ h. h
  choice-contains null field_name choices = tt
  choice-contains (flag b) field_name choices = tt
  choice-contains (integer z) field_name choices = tt
  choice-contains (number x) field_name choices = tt
  choice-contains (array vs) field_name choices = tt
  choice-contains (object raw) field_name choices = tt

  bounded_float-within :
      (v : Value F) (field_name : String) (minimum maximum : F)
      → OkAnd (λ x. within minimum maximum x ≡ true) (bounded_float v field_name minimum maximum)
  unfolding bounded_float
  bounded_float-within v field_name minimum maximum =
      OkAnd-bind _ (λ _. Unit) (float_of v field_name) _ (OkAnd-trivial _)
        λ x _. elim (Bool-cases (within minimum maximum x)) [ inl h ↦ rw h h | inr h ↦ rw h tt ]

  retry_of_bounds :
      (v : Value F) → OkAnd (λ z. (leb_ℤ (pos 0) z && leb_ℤ z (pos 10)) ≡ true) (retry_of v)
  unfolding retry_of
  retry_of_bounds (integer z) = OkAnd-test _ (leb_ℤ (pos 0) z && leb_ℤ z (pos 10)) _ _ λ h. h
  retry_of_bounds null = tt
  retry_of_bounds (flag b) = tt
  retry_of_bounds (number x) = tt
  retry_of_bounds (text s) = tt
  retry_of_bounds (array vs) = tt
  retry_of_bounds (object raw) = tt

  phase_items_count : (v : Value F) → OkAnd (λ vs. Countable (items_length vs)) (phase_items v)
  unfolding phase_items
  phase_items_count (array vs) =
      OkAnd-test _ (leb 1 (items_length vs) && leb (items_length vs) 32) _ _ λ h. h
  phase_items_count null = tt
  phase_items_count (flag b) = tt
  phase_items_count (number x) = tt
  phase_items_count (integer z) = tt
  phase_items_count (text s) = tt
  phase_items_count (object raw) = tt

  scope_identifier_scope :
      (v : Value F) (field_name : String)
      → OkAnd (λ s. is_scope s ≡ true) (scope_identifier v field_name)
  unfolding scope_identifier
  scope_identifier_scope (text value) field_name = OkAnd-test _ (is_scope value) _ _ λ h. h
  scope_identifier_scope null field_name = tt
  scope_identifier_scope (flag b) field_name = tt
  scope_identifier_scope (number x) field_name = tt
  scope_identifier_scope (integer z) field_name = tt
  scope_identifier_scope (array vs) field_name = tt
  scope_identifier_scope (object raw) field_name = tt

  -- As many phases as and each a scope.
  abbrev ArePhases : Items F → List String → Type 0
  ArePhases vs phases =
      (length phases ≡ items_length vs) × All (λ phase. is_scope phase ≡ true) phases

  phases_of-ArePhases : (vs : Items F) → OkAnd (ArePhases vs) (phases_of vs)
  unfolding phases_of
  phases_of-ArePhases nil = (refl, tt)
  phases_of-ArePhases (cons v vs) =
      OkAnd-bind _ (λ s. is_scope s ≡ true) (scope_identifier v "dependency.active_phases") _
        (scope_identifier_scope v _)
        λ phase h.
          OkAnd-bind _ (ArePhases vs) (phases_of vs) _ (phases_of-ArePhases vs)
            λ phases k. (omega (arith, k.0), (h, k.1))

  parse_fields-IsContract :
      (raw : Fields F) (base : DependencyContract F) → OkAnd IsContract (parse_fields raw base)
  unfolding parse_fields
  parse_fields-IsContract raw base =
      OkAnd-bind _ (λ _. Unit) (check_names raw) _ (OkAnd-trivial _)
        λ u _.
          OkAnd-bind _ _ (minimum_confidence_of raw base) _ (bounded_float-within _ _ _ _) λ n0 h1.
            OkAnd-bind _ _ (max_age_seconds_of raw base) _ (bounded_float-within _ _ _ _) λ n1 h2.
              OkAnd-bind _ _ (recovery_timeout_seconds_of raw base) _ (bounded_float-within _ _ _ _)
                λ n2 h3.
                  OkAnd-bind _ _ (retry_limit_of raw base) _
                    (retry_of_bounds (or_else (field "retry_limit" raw) (integer base.retry_limit)))
                    λ retry h4.
                      OkAnd-bind _ _ (raw_phases_of raw base) _
                        (phase_items_count
                          (or_else (field "active_phases" raw) (array (items base.active_phases))))
                        λ raw_phases h5.
                          OkAnd-bind _ _ (safety_impact_of raw base) _
                            (choice-contains
                              (or_else (field "safety_impact" raw) (text base.safety_impact))
                              "dependency.safety_impact" safety_impacts)
                            λ c0 h6.
                              OkAnd-bind _ _ (task_impact_of raw base) _
                                (choice-contains
                                  (or_else (field "task_impact" raw) (text base.task_impact))
                                  "dependency.task_impact" task_impacts)
                                λ c1 h7.
                                  OkAnd-bind _ _ (evidence_requirement_of raw base) _
                                    (choice-contains
                                      (or_else (field "evidence_requirement" raw)
                                        (text base.evidence_requirement))
                                      "dependency.evidence_requirement" evidence_requirements)
                                    λ c2 h8.
                                      OkAnd-bind _ _ (substitution_mode_of raw base) _
                                        (choice-contains
                                          (or_else (field "substitution_mode" raw)
                                            (text base.substitution_mode))
                                          "dependency.substitution_mode" substitution_modes)
                                        λ c3 h9.
                                          OkAnd-bind _ _ (phases_of raw_phases) _
                                            (phases_of-ArePhases raw_phases)
                                            λ phases h10. record {
                                              safety = h6;
                                              task = h7;
                                              evidence = h8;
                                              substitution = h9;
                                              confidence = h1;
                                              age = h2;
                                              recovery = h3;
                                              retry = h4;
                                              count = rw h10.0 h5;
                                              phases = h10.1;
                                            }

  -- A contract that is parsed from a mapping has its choices among the known ones, its numbers in
  -- their bounds, and 1 to 32 phases that are scopes, whatever contract gives the missing fields.
  pub from_mapping-IsContract :
      (raw : Fields F) (default : Option (DependencyContract F))
      → OkAnd IsContract (from_mapping (object raw) default)
  unfolding from_mapping
  from_mapping-IsContract raw default =
      parse_fields-IsContract raw (or_else default observer_default)
