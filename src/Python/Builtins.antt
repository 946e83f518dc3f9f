-- ===== src/Python/Builtins.antt =====
-- Python's floats and the library calls on them, as an interface over an abstract type. `decimal n d`
-- is the literal n / 10^d. `lt` and `le` are the comparisons of floats, so a test on a value that is
-- no number answers `false`. `sin` and `cos` give `none` where the source's `math` raises.
use flyto_robotics.Prelude.{
  ℕ, zero, Bool, true, false, not, Option, none, some, String, if◌then◌else◌, str_eq,
}
use flyto_robotics.Prelude.Int.{ℤ, pos}
use flyto_robotics.Python.Values.{Value, null, flag, integer, number, text, array, object, nil, end}
use flyto_robotics.Python.Outcome.{Result, ok, raised, type_error, value_error}

pub record Runtime (F : Type 0) : Type 0 where
  pub decimal : ℕ → ℕ → F
  pub neg : F → F
  pub abs : F → F
  pub add : F → F → F
  pub sub : F → F → F
  pub mul : F → F → F
  pub div : F → F → F
  pub lt : F → F → Bool
  pub le : F → F → Bool
  pub eq : F → F → Bool
  pub is_finite : F → Bool
  pub is_nan : F → Bool
  pub infinity : F
  pub pi : F
  pub sin : F → Option F
  pub cos : F → Option F
  pub degrees : F → F
  pub modulo : F → F → F
  pub atan2 : F → F → F
  pub hypot : F → F → F
  pub copysign : F → F → F
  -- `math.remainder`, `none` where it raises
  pub remainder : F → F → Option F
  pub of_integer : ℤ → F
  pub round_to : ℕ → F → F
  pub fixed : ℕ → F → String
  pub parse_float : String → Option F
  pub repr : Value F → String
  -- `unicodedata.normalize` with `strip`, and the checks on the result; `none` where they fail
  pub normalize_label : String → Option String
  -- `json.dumps` with an indent and sorted keys, and a line feed behind it
  pub json_dump : Value F → String
  -- `json.loads`, `none` where it raises
  pub json_loads : String → Option (Value F)
  -- `len(value.encode("utf-8"))`
  pub utf8_length : String → ℕ

module _ {F : Type 0} ⦃rt : Runtime F⦄ where
  abbrev pub zero_float : F
  zero_float = rt.decimal 0 0

  -- The builtins keep the first argument unless the second is strictly beyond it.
  unfoldable pub fmin : F → F → F
  fmin a b = if rt.lt b a then b else a

  unfoldable pub fmax : F → F → F
  fmax a b = if rt.lt a b then b else a

  -- `math.sin(x)` and `math.cos(x)`
  unfoldable pub sine : F → Result F
  sine x = elim (rt.sin x) [ none ↦ raised (value_error "math domain error") | some y ↦ ok y ]

  unfoldable pub cosine : F → Result F
  cosine x = elim (rt.cos x) [ none ↦ raised (value_error "math domain error") | some y ↦ ok y ]

  -- `o or d` on an optional float: 0.0 counts as false.
  unfoldable pub float_or : Option F → F → F
  float_or none d = d
  float_or (some x) d = if rt.eq x (rt.decimal 0 1) then d else x

  -- `bool(value)`
  unfoldable pub truthy : Value F → Bool
  truthy null = false
  truthy (flag b) = b
  truthy (integer (pos zero)) = false
  truthy (number x) = not (rt.eq x (rt.decimal 0 0))
  truthy (text s) = not (str_eq s "")
  truthy (array nil) = false
  truthy (object end) = false
  truthy v = true

  -- `float(value)`
  unfoldable pub to_float : Value F → Result F
  to_float null = raised (type_error "float() argument must be a string or a real number")
  to_float (flag b) = ok (if b then rt.decimal 1 0 else rt.decimal 0 0)
  to_float (integer z) = ok (rt.of_integer z)
  to_float (number x) = ok x
  to_float (text s) = elim (rt.parse_float s) [
    | none ↦ raised (value_error "could not convert string to float")
    | some x ↦ ok x
  ]
  to_float _ = raised (type_error "float() argument must be a string or a real number")

  -- `str(value)`
  unfoldable pub to_str : Value F → String
  to_str null = "None"
  to_str (flag b) = if b then "True" else "False"
  to_str (text s) = s
  to_str v = rt.repr v
