-- ===== src/Python/Platform.antt =====
-- Services of the Python library: hashes of texts, the character tables, and the JSON codec.
use flyto_robotics.Prelude.{ℕ, String, Bool, Option}
use flyto_robotics.Python.Values.{Value}

pub record Platform : Type 0 where
  -- `hashlib.sha256(value.encode("utf-8")).hexdigest()`
  pub sha256 : String → String
  -- `character.isalnum()`, on a code point
  pub is_alnum : ℕ → Bool
  -- `len(value.encode("utf-8"))`
  pub utf8_length : String → ℕ
  -- `str(n)`
  pub str_of_count : ℕ → String
  -- `hmac.new(key, message, hashlib.sha256).hexdigest()`, on the encoded texts
  pub hmac_sha256 : String → String → String

pub record Json (F : Type 0) : Type 0 where
  -- `json.loads`, `none` where it raises
  pub loads : String → Option (Value F)
  -- `json.dumps` with sorted keys, compact separators and no escapes, `none` where it raises
  pub dumps : Value F → Option String
