-- ===== src/HumanApproval/Checks.antt =====
-- human_approval.py: what an accepted decision has shown.
use flyto_robotics.Prelude.{◌≡◌, ap, ◌∙◌, String, true, false, not, str_eq, if_split, arith, eq_iff}
use flyto_robotics.Prelude.Int.{ℤ, pos, ◌+ℤ◌, ◌-ℤ◌, leb_ℤ, ltb_ℤ}
use flyto_robotics.Python.{Value, null, flag, integer, number, text, array, object, Fields, ok}
use flyto_robotics.Python.Platform.{Platform, Json}
use flyto_robotics.Python.Checks.{OkAnd, OkAnd-bind, OkAnd-test_then, OkAnd-then}
use flyto_robotics.HumanApproval.{
  VerifiedHumanDecision, get, is_signature, is_version, decoded_of, object_of, canonical_unsigned,
  check_size, check_fields, check_signature, check_signed, signature_of, stated, check_scope,
  checked,
}

-- The decision is for this job and this robot, and its times fit the clock.
pub record IsInScope (expected_job_id expected_robot_id : String) (now : ℤ)
    (d : VerifiedHumanDecision) : Type 0 where
  pub after_issue : leb_ℤ d.expires_at_epoch_seconds d.issued_at_epoch_seconds ≡ false
  pub short : ltb_ℤ (pos 300) (d.expires_at_epoch_seconds -ℤ d.issued_at_epoch_seconds) ≡ false
  pub issued : ltb_ℤ (now +ℤ pos 30) d.issued_at_epoch_seconds ≡ false
  pub alive : ltb_ℤ d.expires_at_epoch_seconds now ≡ false
  pub job : str_eq d.job_id expected_job_id ≡ true
  pub robot : str_eq d.robot_id expected_robot_id ≡ true

module _ (expected_job_id expected_robot_id : String) (now : ℤ) (d : VerifiedHumanDecision) where
  abbrev Scoped : Unit {0} → Type 0
  Scoped u = IsInScope expected_job_id expected_robot_id now d

  IsInScope-check_scope : OkAnd Scoped (check_scope d expected_job_id expected_robot_id now)
  unfolding check_scope
  IsInScope-check_scope =
      OkAnd-test_then Scoped (leb_ℤ d.expires_at_epoch_seconds d.issued_at_epoch_seconds) _ _ λ h1.
        OkAnd-test_then Scoped
          (ltb_ℤ (pos 300) (d.expires_at_epoch_seconds -ℤ d.issued_at_epoch_seconds)) _ _
          λ h2. OkAnd-test_then Scoped (ltb_ℤ (now +ℤ pos 30) d.issued_at_epoch_seconds) _ _ λ h3.
            OkAnd-test_then Scoped (ltb_ℤ d.expires_at_epoch_seconds now) _ _ λ h4.
              OkAnd-test_then Scoped (not (str_eq d.job_id expected_job_id)) _ _ λ h5.
                if_split (OkAnd Scoped) (not (str_eq d.robot_id expected_robot_id)) (λ h. tt)
                  λ h6. record {
                    after_issue = h1;
                    short = h2;
                    issued = h3;
                    alive = h4;
                    job = ground arith;
                    robot = ground arith;
                  }

module _ {F : Type 0} ⦃platform : Platform⦄ ⦃json : Json F⦄ where
  -- The field `signature` holds 64 hex digits, the HMAC of the other fields under the secret.
  abbrev pub IsSigned : String → Fields F → Value F → Type 0
  IsSigned secret raw (text s) = (is_signature s ≡ true) × (signature_of raw secret ≡ ok s)
  IsSigned secret raw v = ⊥

  IsSigned-check_signed :
      (v : Value F) (raw : Fields F) (secret : String)
      → OkAnd (λ u. IsSigned secret raw v) (check_signed v raw secret)
  unfolding check_signed
  IsSigned-check_signed (text s) raw secret =
      OkAnd-test_then (λ u. IsSigned secret raw (text s)) (not (is_signature s)) _ _
        λ digits.
          OkAnd-then (λ u. IsSigned secret raw (text s)) (signature_of raw secret) _
            λ t same.
              if_split (OkAnd λ u. IsSigned secret raw (text s)) (not (str_eq s t)) (λ h. tt)
                λ h. (ground arith, ground (arith, same, eq_iff s t))
  IsSigned-check_signed null raw secret = tt
  IsSigned-check_signed (flag b) raw secret = tt
  IsSigned-check_signed (integer z) raw secret = tt
  IsSigned-check_signed (number x) raw secret = tt
  IsSigned-check_signed (array vs) raw secret = tt
  IsSigned-check_signed (object fs) raw secret = tt

  object_of_inv : (v : Value F) (raw : Fields F) → object_of v ≡ ok raw → v ≡ object raw
  unfolding object_of
  object_of_inv (object fs) raw e = cc
  object_of_inv (text s) raw e = cc
  object_of_inv null raw e = cc
  object_of_inv (flag b) raw e = cc
  object_of_inv (integer z) raw e = cc
  object_of_inv (number x) raw e = cc
  object_of_inv (array vs) raw e = cc

-- The value is, or holds, a mapping that is signed and states the decision, which is in scope.
pub record IsAuthentic {F : Type 0} ⦃platform : Platform⦄ ⦃json : Json F⦄ (secret : String)
    (value : Value F) (expected_job_id expected_robot_id : String) (now : ℤ)
    (d : VerifiedHumanDecision) : Type 0 where
  pub raw : Fields F
  pub decoded : decoded_of value ≡ ok (object raw)
  pub signed : IsSigned secret raw (get "signature" raw)
  pub versioned : is_version (get "contract_version" raw) ≡ true
  pub states : stated raw ≡ ok d
  pub in_scope : IsInScope expected_job_id expected_robot_id now d

module _ {F : Type 0} ⦃platform : Platform⦄ ⦃json : Json F⦄ (secret : String) (value : Value F)
    (expected_job_id expected_robot_id : String) (now : ℤ) where
  abbrev Authentic : VerifiedHumanDecision → Type 0
  Authentic = IsAuthentic secret value expected_job_id expected_robot_id now

  -- A decision that passes every test but that of the nonce is what a signed mapping states, under
  -- the authenticator's secret, for the job and the robot that were expected; it lives for at most
  -- 300 seconds, has not expired, and was issued at most 30 seconds ahead of the clock.
  pub IsAuthentic-checked :
      OkAnd
        (IsAuthentic secret value expected_job_id expected_robot_id now)
        (checked secret value expected_job_id expected_robot_id now)
  unfolding checked check_signature
  IsAuthentic-checked = OkAnd-then Authentic (decoded_of value) _ λ v e1.
      OkAnd-then Authentic (object_of v) _ λ raw e2.
        OkAnd-then Authentic (canonical_unsigned raw) _ λ canonical e3.
          OkAnd-then Authentic (check_size canonical) _ λ u1 e4.
            OkAnd-then Authentic (check_fields raw) _ λ u2 e5.
              OkAnd-bind Authentic _ (check_signed (get "signature" raw) raw secret) _
                (IsSigned-check_signed (get "signature" raw) raw secret)
                λ u3 signed.
                  OkAnd-test_then Authentic (not (is_version (get "contract_version" raw))) _ _
                    λ version. OkAnd-then Authentic (stated raw) _ λ d states.
                      OkAnd-bind Authentic _ (check_scope d expected_job_id expected_robot_id now) _
                        (IsInScope-check_scope expected_job_id expected_robot_id now d)
                        λ u4 scope. record {
                          raw = raw;
                          decoded = e1 ∙ ap ok (object_of_inv v raw e2);
                          signed = signed;
                          versioned = ground arith;
                          states = states;
                          in_scope = scope;
                        }
