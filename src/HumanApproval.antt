-- ===== src/HumanApproval.antt =====
-- flyto_robotics/human_approval.py: signed decisions of people, and the authenticator that accepts each
-- nonce once. A secret is a text, and the clock's reading is an argument.
pub mod Checks
pub mod Nonces
pub mod Signing
use flyto_robotics.Prelude.{
  ℕ, ◌&&◌, ◌||◌, String, Bool, true, false, not, Option, none, some, List, [], ◌∷◌, ◌++◌,
  if◌then◌else◌, length, leb, ltb, ◌==◌, contains, str_eq, codes, format, or_else,
}
use flyto_robotics.Prelude.Int.{ℤ, pos, ◌+ℤ◌, ◌-ℤ◌, leb_ℤ, ltb_ℤ}
use flyto_robotics.Python.{
  Value, null, flag, integer, text, object, Fields, end, entry, Result, ok, raised,
  human_decision_error,
}
use flyto_robotics.Python.Platform.{Platform, Json}
use flyto_robotics.Python.Mappings.{field, keys, join, without, is_nothing, unknown_names}
use flyto_robotics.Python.Checks.{raise_if, ◌>>=◌, ◌>>◌}
use flyto_robotics.Capabilities.{safe_text}

pub record VerifiedHumanDecision : Type 0 where
  pub job_id : String
  pub robot_id : String
  pub approval_id : String
  pub approved : Bool
  pub actor_id : String
  pub issued_at_epoch_seconds : ℤ
  pub expires_at_epoch_seconds : ℤ
  pub nonce : String

abbrev pub contract_version : String
contract_version = "flyto.robotics.human-decision.v1"

abbrev pub max_decision_bytes : ℕ
max_decision_bytes = 16384

abbrev pub decision_fields : List String
decision_fields =
    "contract_version" ∷ "job_id" ∷ "robot_id" ∷ "approval_id" ∷ "approved" ∷ "actor_id"
    ∷ "issued_at_epoch_seconds" ∷ "expires_at_epoch_seconds" ∷ "nonce" ∷ "signature" ∷ []

abbrev is_hex : ℕ → Bool
is_hex c = (leb b'0' c && leb c b'9') || (leb b'a' c && leb c b'f')

abbrev all_hex : List ℕ → Bool
all_hex [] = true
all_hex (c ∷ cs) = is_hex c && all_hex cs

-- `SIGNATURE_PATTERN.fullmatch(signature)`
unfoldable pub is_signature : String → Bool
is_signature s = all_hex (codes s) && length (codes s) == 64

abbrev refused {ℓ} : {A : Type ℓ} → String → Result A
refused message = raised (human_decision_error message)

abbrev or_refused : Option String → Result String
or_refused none = refused "human decision must contain JSON-compatible values"
or_refused (some s) = ok s

unfoldable pub safe : String → String → Result String
safe s name =
    if safe_text s then ok s else refused (format (name ∷ " must be a safe identifier" ∷ []))

module _ ⦃platform : Platform⦄ where
  abbrev pub check_size : String → Result (Unit {0})
  check_size canonical =
      raise_if (ltb max_decision_bytes (platform.utf8_length canonical))
        (human_decision_error "human decision is too large")

  unfoldable pub secret_bytes : String → Result String
  secret_bytes secret =
      if ltb (platform.utf8_length secret) 32
      then refused "approval secret must contain at least 32 bytes"
      else ok secret

module _ {F : Type 0} where
  unfoldable pub identifier : Value F → String → Result String
  unfolding safe
  identifier (text s) name = safe s name
  identifier _ name = refused (format (name ∷ " must be a safe identifier" ∷ []))

  unfoldable pub integer_of : Value F → String → Result ℤ
  integer_of (integer z) name = ok z
  integer_of _ name = refused (format (name ∷ " must be an integer" ∷ []))

  unfoldable pub flag_of : Value F → Result Bool
  flag_of (flag b) = ok b
  flag_of _ = refused "approved must be a boolean"

  -- The mapping without its signature.
  abbrev pub unsigned : Fields F → Fields F
  unsigned end = end
  unsigned (entry key value raw) =
      if str_eq key "signature" then unsigned raw else entry key value (unsigned raw)

  abbrev or_null : Option (Value F) → Value F
  or_null none = null
  or_null (some v) = v

  -- `decoded[name]`, which the tests of the fields have found
  abbrev pub get : String → Fields F → Value F
  get name raw = or_null (field name raw)

  abbrev pub is_version : Value F → Bool
  is_version (text s) = str_eq s contract_version
  is_version _ = false

module _ {F : Type 0} ⦃platform : Platform⦄ ⦃json : Json F⦄ where
  unfoldable pub canonical_unsigned : Fields F → Result String
  canonical_unsigned raw = or_refused (json.dumps (object (unsigned raw)))

  unfoldable pub signature_of : Fields F → String → Result String
  unfolding canonical_unsigned
  signature_of raw secret = do
    message ← canonical_unsigned raw
    ok (platform.hmac_sha256 secret message)

  abbrev parsed : Option (Value F) → Result (Value F)
  parsed none = refused "human decision must be JSON"
  parsed (some v) = ok v

  -- A text is parsed; anything else is taken as it is.
  unfoldable pub decoded_of : Value F → Result (Value F)
  decoded_of (text s) =
      if ltb max_decision_bytes (platform.utf8_length s)
      then refused "human decision is too large"
      else parsed (json.loads s)
  decoded_of v = ok v

  unfoldable pub object_of : Value F → Result (Fields F)
  object_of (object raw) = ok raw
  object_of _ = refused "human decision must be an object"

  unfoldable pub check_fields : Fields F → Result (Unit {0})
  check_fields raw = do
    raise_if (not (is_nothing (without decision_fields (keys raw)))) (
        human_decision_error (
          format (
            "human decision contains unsupported fields: "
            ∷ join (unknown_names decision_fields (keys raw))
            ∷ [])))
    raise_if (not (is_nothing (without (keys raw) decision_fields))) (
        human_decision_error (
          format
            ("human decision is missing: " ∷ join (unknown_names (keys raw) decision_fields) ∷ [])))

  unfoldable pub check_signed : Value F → Fields F → String → Result (Unit {0})
  unfolding signature_of is_signature
  check_signed (text signature) raw secret = do
    raise_if (not (is_signature signature))
        (human_decision_error "human decision signature must be lowercase SHA-256 hex")
    expected ← signature_of raw secret
    raise_if (not (str_eq signature expected))
        (human_decision_error "human decision signature is invalid")
  check_signed v raw secret = refused "human decision signature must be lowercase SHA-256 hex"

  unfoldable pub check_signature : Fields F → String → Result (Unit {0})
  unfolding check_signed
  check_signature raw secret = check_signed (get "signature" raw) raw secret

  -- The decision that a mapping states, each field of its type.
  unfoldable pub stated : Fields F → Result VerifiedHumanDecision
  unfolding identifier integer_of flag_of
  stated raw = do
    job_id ← identifier (get "job_id" raw) "job_id"
    robot_id ← identifier (get "robot_id" raw) "robot_id"
    approval_id ← identifier (get "approval_id" raw) "approval_id"
    actor_id ← identifier (get "actor_id" raw) "actor_id"
    nonce ← identifier (get "nonce" raw) "nonce"
    approved ← flag_of (get "approved" raw)
    issued_at ← integer_of (get "issued_at_epoch_seconds" raw) "issued_at_epoch_seconds"
    expires_at ← integer_of (get "expires_at_epoch_seconds" raw) "expires_at_epoch_seconds"
    ok (record {
      job_id = job_id;
      robot_id = robot_id;
      approval_id = approval_id;
      approved = approved;
      actor_id = actor_id;
      issued_at_epoch_seconds = issued_at;
      expires_at_epoch_seconds = expires_at;
      nonce = nonce;
    })

-- The tests of the times and of the scope.
unfoldable pub check_scope : VerifiedHumanDecision → String → String → ℤ → Result (Unit {0})
check_scope d expected_job_id expected_robot_id now = do
  raise_if (leb_ℤ d.expires_at_epoch_seconds d.issued_at_epoch_seconds)
      (human_decision_error "human decision expiry must follow issue time")
  raise_if (ltb_ℤ (pos 300) (d.expires_at_epoch_seconds -ℤ d.issued_at_epoch_seconds))
      (human_decision_error "human decision lifetime is too long")
  raise_if (ltb_ℤ (now +ℤ pos 30) d.issued_at_epoch_seconds)
      (human_decision_error "human decision issue time is in the future")
  raise_if (ltb_ℤ d.expires_at_epoch_seconds now)
      (human_decision_error "human decision has expired")
  raise_if (not (str_eq d.job_id expected_job_id))
      (human_decision_error "human decision job_id does not match")
  raise_if (not (str_eq d.robot_id expected_robot_id))
      (human_decision_error "human decision robot_id does not match")

pub record HumanDecisionAuthenticator : Type 0 where
  pub secret : String
  pub used_nonces : List String

module _ {F : Type 0} ⦃platform : Platform⦄ ⦃json : Json F⦄ where
  -- `verify` up to the test of the nonce.
  unfoldable pub checked : String → Value F → String → String → ℤ → Result VerifiedHumanDecision
  checked secret value expected_job_id expected_robot_id now = do
    decoded ← decoded_of value
    raw ← object_of decoded
    canonical ← canonical_unsigned raw
    check_size canonical
    check_fields raw
    check_signature raw secret
    raise_if (not (is_version (get "contract_version" raw)))
        (human_decision_error (format ("contract_version must be " ∷ contract_version ∷ [])))
    decision ← stated raw
    check_scope decision expected_job_id expected_robot_id now
    ok decision

-- The test of the nonce, which is the last, and its use.
unfoldable pub use_nonce :
    Result VerifiedHumanDecision
    → HumanDecisionAuthenticator
    → Result VerifiedHumanDecision × HumanDecisionAuthenticator
use_nonce (raised e) a = (raised e, a)
use_nonce (ok d) a =
    if contains d.nonce a.used_nonces
    then (refused "human decision nonce was already used", a)
    else (ok d, record a { used_nonces = d.nonce ∷ a.used_nonces })

-- A call of `verify`.
pub record Presented (F : Type 0) : Type 0 where
  pub value : Value F
  pub expected_job_id : String
  pub expected_robot_id : String
  pub now : ℤ

module _ {F : Type 0} ⦃platform : Platform⦄ ⦃json : Json F⦄ where
  unfoldable pub verify :
      Presented F
      → HumanDecisionAuthenticator
      → Result VerifiedHumanDecision × HumanDecisionAuthenticator
  verify p a = use_nonce (checked a.secret p.value p.expected_job_id p.expected_robot_id p.now) a

  -- The fields of a decision but its signature, before the rest.
  abbrev pub decision_data :
      String → String → String → Bool → String → ℤ → ℤ → String → Fields F → Fields F
  decision_data job robot approval approved actor issued_at ttl nonce rest =
      entry "contract_version" (text contract_version) (
        entry "job_id" (text job) (
          entry "robot_id" (text robot) (
            entry "approval_id" (text approval) (
              entry "approved" (flag approved) (
                entry "actor_id" (text actor) (
                  entry "issued_at_epoch_seconds" (integer issued_at) (
                    entry "expires_at_epoch_seconds" (integer (issued_at +ℤ ttl))
                      (entry "nonce" (text nonce) rest))))))))

  -- `build_signed_human_decision`, with the issue time and the nonce that it takes or makes.
  unfoldable pub build_signed_human_decision :
      String → String → String → Bool → String → String → ℤ → ℤ → String → Result (Fields F)
  unfolding safe signature_of secret_bytes
  build_signed_human_decision job_id robot_id approval_id approved actor_id secret issued_at ttl
        nonce =
      do
        raise_if (not (leb_ℤ (pos 1) ttl && leb_ℤ ttl (pos 300)))
            (human_decision_error "ttl_seconds must be between 1 and 300")
        job ← safe job_id "job_id"
        robot ← safe robot_id "robot_id"
        approval ← safe approval_id "approval_id"
        actor ← safe actor_id "actor_id"
        fresh ← safe nonce "nonce"
        let unsigned_data = decision_data job robot approval approved actor issued_at ttl fresh
        key ← secret_bytes secret
        signature ← signature_of (unsigned_data end) key
        ok (unsigned_data (entry "signature" (text signature) end))
