-- ===== src/Prelude/Texts.antt =====
-- Python's `str`: code points, slices, concatenation, and dictionaries and sets keyed by texts.
use Prim.Native.Char.{code}
use Prim.Native.Nat.{ℕ, zero, suc}
use Prim.Native.String.{String, ◌++◌ as str_append}
use mathlib.Core.Path.{◌≡◌, refl}
use mathlib.Core.Bool.{Bool, false, ◌||◌}
use mathlib.Core.List.{List, [], ◌∷◌}
use mathlib.Core.Option.{Option, none, some}
use native.Mathlib.Omega.{arith}
use text.Mathlib.Text.{◌==◌}
use text.Mathlib.TextEquality.{eq_iff}
use flyto_robotics.Prelude.Tests.{if◌then◌else◌, is_some, ◌==◌ as ◌==ℕ◌}

abbrev pub str_eq : String → String → Bool
str_eq = ◌==◌

-- The code points of a text.
abbrev pub codes : String → List ℕ
codes String.[] = []
codes (String.◌∷◌ c s) = code c ∷ codes s

-- What follows a prefix, and what follows the leftmost occurrence.
abbrev pub after_prefix : List ℕ → List ℕ → Option (List ℕ)
after_prefix [] s = some s
after_prefix (c ∷ p) [] = none
after_prefix (c ∷ p) (d ∷ s) = if c ==ℕ d then after_prefix p s else none

abbrev pub after_first : List ℕ → List ℕ → Option (List ℕ)
after_first p [] = after_prefix p []
after_first p (d ∷ s) = elim (after_prefix p (d ∷ s)) [
  | some rest ↦ some rest
  | none ↦ after_first p s
]

-- `p in s`
abbrev pub occurs_in : String → String → Bool
occurs_in p s = is_some (after_first (codes p) (codes s))

-- `s[:n]`
pub take_chars : ℕ → String → String
take_chars zero s = String.[]
take_chars (suc n) String.[] = String.[]
take_chars (suc n) (String.◌∷◌ c s) = String.◌∷◌ c (take_chars n s)

-- The pieces of an f-string, joined.
abbrev pub format : List String → String
format [] = ""
format (s ∷ parts) = str_append s (format parts)

-- `key in xs`
abbrev pub contains : String → List String → Bool
contains k [] = false
contains k (j ∷ xs) = str_eq j k || contains k xs

module _ {ℓ} {V : Type ℓ} where
  -- `d.get(key)`
  abbrev pub lookup : String → List (String × V) → Option V
  lookup k [] = none
  lookup k ((j, v) ∷ d) = if str_eq j k then some v else lookup k d

  -- `d[key] = value`
  abbrev pub insert : String → V → List (String × V) → List (String × V)
  insert k v [] = (k, v) ∷ []
  insert k v ((j, w) ∷ d) = if str_eq j k then (k, v) ∷ d else (j, w) ∷ insert k v d

  -- `dict(pairs).get(key)`: of two pairs with one key the later counts.
  abbrev pub lookup_last : String → List (String × V) → Option V
  lookup_last k [] = none
  lookup_last k ((j, v) ∷ d) = elim (lookup_last k d) [
    | some w ↦ some w
    | none ↦ if str_eq j k then some v else none
  ]

  pub lookup-insert :
      (k j : String) (v : V) (d : List (String × V))
      → lookup j (insert k v d) ≡ (if str_eq k j then some v else lookup j d)
  lookup-insert k j v [] = refl
  lookup-insert k j v ((i, w) ∷ d) =
      ground (arith, eq_iff i k, eq_iff i j, eq_iff k j, lookup-insert k j v d)
