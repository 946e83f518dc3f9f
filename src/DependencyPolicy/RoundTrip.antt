-- ===== src/DependencyPolicy/RoundTrip.antt =====
-- dependency_policy.py: a contract that is written and parsed again.
use flyto_robotics.Prelude.{
  ◌≡◌, refl, String, true, Option, List, [], ◌∷◌, All, length, sort_by, arith,
}
use flyto_robotics.Python.{Runtime, ok}
use flyto_robotics.Python.Checks.{◌>>=◌, ◌>>◌}
use flyto_robotics.Python.Mappings.{items, items_length}
use flyto_robotics.DependencyPolicy.{
  DependencyContract, choice, scope_identifier, is_scope, bounded_float, float_of, retry_of,
  phase_items, phases_of, parse_fields, from_mapping, to_mapping,
}
use flyto_robotics.DependencyPolicy.Validity.{IsContract}

module _ (F : Type 0) where
  items_length-items : (names : List String) → items_length {F = F} (items names) ≡ length names
  items_length-items [] = refl
  items_length-items (n ∷ names) = omega (arith, items_length-items names)

module _ (F : Type 0) ⦃rt : Runtime F⦄ where
  phases_of-items :
      (names : List String)
      → All (λ phase. is_scope phase ≡ true) names
      → phases_of {F = F} (items names) ≡ ok names
  unfolding phases_of scope_identifier
  phases_of-items [] h = refl
  phases_of-items (n ∷ names) (h, k) = rw (h, phases_of-items names k, ◌>>=◌) refl

module _ {F : Type 0} ⦃rt : Runtime F⦄ where
  -- A contract that is well formed comes back from its mapping, whatever gives the missing fields.
  pub from_mapping-to_mapping :
      (c : DependencyContract F) (default : Option (DependencyContract F))
      → IsContract c
      → from_mapping (to_mapping c) default ≡ ok c
  unfolding from_mapping to_mapping parse_fields choice bounded_float float_of retry_of phase_items
      sort_by
  from_mapping-to_mapping c default h =
      rw
        (
          h.confidence,
          h.age,
          h.recovery,
          h.retry,
          items_length-items F c.active_phases,
          h.count,
          h.safety,
          h.task,
          h.evidence,
          h.substitution,
          phases_of-items F c.active_phases h.phases,
          ◌>>=◌,
          ◌>>◌,
        )
        refl
