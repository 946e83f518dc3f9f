-- ===== src/HumanApproval/Signing.antt =====
-- human_approval.py: what one side signs, the other accepts.
use flyto_robotics.Prelude.{
  eq_iff, str_eq, ◌≡◌, ap, ◌∙◌, refl, List, String, Bool, true, false, some, contains, arith, ltb,
}
use flyto_robotics.Prelude.Int.{ℤ, pos, negsuc, ◌+ℤ◌, ◌-ℤ◌, leb_ℤ, ltb_ℤ}
use flyto_robotics.Python.{object, entry, text, Fields, end, Result, ok}
use flyto_robotics.Python.Platform.{Platform, Json}
use flyto_robotics.Python.Checks.{◌>>=◌, ◌>>◌}
use flyto_robotics.Capabilities.{safe_text}
use flyto_robotics.HumanApproval.{
  VerifiedHumanDecision, is_signature, decision_data, build_signed_human_decision, verify,
  max_decision_bytes, safe, checked, decoded_of, object_of, check_fields, check_signature,
  check_signed, canonical_unsigned, signature_of, stated, check_scope, identifier, integer_of,
  flag_of, use_nonce, secret_bytes, or_refused,
}

after_issue : (z t : ℤ) → leb_ℤ (pos 1) t ≡ true → leb_ℤ (z +ℤ t) z ≡ false
unfolding ◌+ℤ◌
after_issue (pos a) (pos b) h = ground arith
after_issue (pos a) (negsuc b) h = ground arith
after_issue (negsuc a) (pos b) h = ground arith
after_issue (negsuc a) (negsuc b) h = ground arith

lifetime : (z t : ℤ) → leb_ℤ t (pos 300) ≡ true → ltb_ℤ (pos 300) ((z +ℤ t) -ℤ z) ≡ false
unfolding ◌+ℤ◌ ◌-ℤ◌
lifetime (pos a) (pos b) h = ground arith
lifetime (pos a) (negsuc b) h = ground arith
lifetime (negsuc a) (pos b) h = ground arith
lifetime (negsuc a) (negsuc b) h = ground arith

str_eq_refl : (s : String) → str_eq s s ≡ true
str_eq_refl s = (eq_iff s s).1 refl

module _ (F : Type 0) ⦃platform : Platform⦄ ⦃json : Json F⦄
    (job robot approval actor secret nonce c : String) (approved : Bool) (issued_at ttl now : ℤ)
    (used : List String) where
  abbrev pub signed : Result (Fields F)
  signed = build_signed_human_decision job robot approval approved actor secret issued_at ttl nonce

  abbrev pub accepts : Fields F → Result VerifiedHumanDecision
  accepts fields =
      (verify
        (record {
          value = object fields;
          expected_job_id = job;
          expected_robot_id = robot;
          now = now;
        })
        (record { secret = secret; used_nonces = used })).0

  abbrev data_of : Fields F → Fields F
  data_of = decision_data job robot approval approved actor issued_at ttl nonce

  abbrev pub envelope : Fields F
  envelope = data_of (entry "signature" (text (platform.hmac_sha256 secret c)) end)

  signed_lem :
      safe_text job ≡ true
      → safe_text robot ≡ true
      → safe_text approval ≡ true
      → safe_text actor ≡ true
      → safe_text nonce ≡ true
      → leb_ℤ (pos 1) ttl ≡ true
      → leb_ℤ ttl (pos 300) ≡ true
      → ltb (platform.utf8_length secret) 32 ≡ false
      → json.dumps (object (data_of end)) ≡ some c
      → signed ≡ ok envelope
  unfolding build_signed_human_decision safe secret_bytes signature_of canonical_unsigned
  signed_lem h1 h2 h3 h4 h5 h6 h7 h8 h9 =
      rw (h1, h2, h3, h4, h5, h6, h7, h8, h9, or_refused, ◌>>=◌) refl

  abbrev pub decision : VerifiedHumanDecision
  decision = record {
    job_id = job;
    robot_id = robot;
    approval_id = approval;
    approved = approved;
    actor_id = actor;
    issued_at_epoch_seconds = issued_at;
    expires_at_epoch_seconds = issued_at +ℤ ttl;
    nonce = nonce;
  }

  stated-envelope :
      safe_text job ≡ true
      → safe_text robot ≡ true
      → safe_text approval ≡ true
      → safe_text actor ≡ true
      → safe_text nonce ≡ true
      → stated envelope ≡ ok decision
  unfolding stated identifier safe integer_of flag_of
  stated-envelope h1 h2 h3 h4 h5 = rw (h1, h2, h3, h4, h5, ◌>>=◌) refl

  check_scope-decision :
      leb_ℤ (pos 1) ttl ≡ true
      → leb_ℤ ttl (pos 300) ≡ true
      → ltb_ℤ (now +ℤ pos 30) issued_at ≡ false
      → ltb_ℤ (issued_at +ℤ ttl) now ≡ false
      → check_scope decision job robot now ≡ ok tt
  unfolding check_scope
  check_scope-decision h1 h2 h3 h4 =
      rw
        (
          after_issue issued_at ttl h1,
          lifetime issued_at ttl h2,
          h3,
          h4,
          str_eq_refl job,
          str_eq_refl robot,
          ◌>>=◌,
          ◌>>◌,
        )
        refl

  check_signature-envelope :
      json.dumps (object (data_of end)) ≡ some c
      → is_signature (platform.hmac_sha256 secret c) ≡ true
      → check_signature envelope secret ≡ ok tt
  unfolding check_signature check_signed signature_of canonical_unsigned
  check_signature-envelope h1 h2 =
      rw (h1, h2, or_refused, str_eq_refl (platform.hmac_sha256 secret c), ◌>>=◌, ◌>>◌) refl

  checked-envelope :
      json.dumps (object (data_of end)) ≡ some c
      → ltb max_decision_bytes (platform.utf8_length c) ≡ false
      → check_signature envelope secret ≡ ok tt
      → stated envelope ≡ ok decision
      → check_scope decision job robot now ≡ ok tt
      → checked secret (object envelope) job robot now ≡ ok decision
  unfolding checked decoded_of object_of check_fields canonical_unsigned
  checked-envelope h1 h2 h3 h4 h5 = rw (h1, or_refused, h2, h3, h4, h5, ◌>>=◌, ◌>>◌) refl

  -- A decision that is built with safe identifiers, a life of 1 to 300 seconds, a secret of at least
  -- 32 bytes and a nonce that was not used is accepted as it was stated, by an authenticator with
  -- the same secret that expects its job and its robot, at every time from 30 seconds before its
  -- issue to its expiry, if its canonical form fits in 16384 bytes and its HMAC is 64 hex digits.
  pub build-verify :
      safe_text job ≡ true
      → safe_text robot ≡ true
      → safe_text approval ≡ true
      → safe_text actor ≡ true
      → safe_text nonce ≡ true
      → leb_ℤ (pos 1) ttl ≡ true
      → leb_ℤ ttl (pos 300) ≡ true
      → ltb (platform.utf8_length secret) 32 ≡ false
      → json.dumps (object (data_of end)) ≡ some c
      → ltb max_decision_bytes (platform.utf8_length c) ≡ false
      → is_signature (platform.hmac_sha256 secret c) ≡ true
      → ltb_ℤ (now +ℤ pos 30) issued_at ≡ false
      → ltb_ℤ (issued_at +ℤ ttl) now ≡ false
      → contains nonce used ≡ false
      → (signed >>= accepts) ≡ ok decision
  unfolding verify use_nonce
  build-verify h1 h2 h3 h4 h5 h6 h7 h8 h9 h10 h11 h12 h13 h14 =
      let is_checked =
        checked-envelope h9 h10 (check_signature-envelope h9 h11) (stated-envelope h1 h2 h3 h4 h5)
          (check_scope-decision h6 h7 h12 h13) in
      rw (signed_lem h1 h2 h3 h4 h5 h6 h7 h8 h9, ◌>>=◌)
        (ap (λ r. (use_nonce r (record { secret = secret; used_nonces = used })).0) is_checked
          ∙ rw h14 refl)
