-- ===== src/Examples/RoundTrips.antt =====
-- A dependency contract that is written and parsed again, as a witness.
use flyto_robotics.Prelude.{◌≡◌, refl, none, [], ◌∷◌}
use flyto_robotics.Prelude.Int.{ℤ, pos}
use flyto_robotics.Python.{ok}
use flyto_robotics.DependencyPolicy.{DependencyContract, is_scope, from_mapping, to_mapping}
use flyto_robotics.DependencyPolicy.Validity.{IsContract}
use flyto_robotics.DependencyPolicy.RoundTrip.{from_mapping-to_mapping}
use flyto_robotics.Examples.Milli.{milli}

abbrev scanner : DependencyContract ℤ
scanner = record {
  safety_impact = "stop";
  task_impact = "block";
  evidence_requirement = "record";
  substitution_mode = "validated";
  minimum_confidence = pos 200;
  max_age_seconds = pos 30000;
  recovery_timeout_seconds = pos 0;
  retry_limit = pos 2;
  active_phases = "*" ∷ "delivery" ∷ [];
}

scanner-IsContract : IsContract scanner
unfolding is_scope
scanner-IsContract = record {
  safety = refl;
  task = refl;
  evidence = refl;
  substitution = refl;
  confidence = refl;
  age = refl;
  recovery = refl;
  retry = refl;
  count = refl;
  phases = (refl, (refl, tt));
}

from_mapping-to_mapping_example : from_mapping (to_mapping scanner) none ≡ ok scanner
from_mapping-to_mapping_example = from_mapping-to_mapping scanner none scanner-IsContract
