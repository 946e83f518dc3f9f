-- ===== src/Python/Mappings.antt =====
-- Reading a `Mapping` of decoded JSON, whose keys are distinct.
use flyto_robotics.Prelude.{
  ℕ, ◌+◌, String, Bool, true, false, Option, none, some, List, [], ◌∷◌, if◌then◌else◌, contains,
  str_eq, format, text_le, sort_by,
}
use flyto_robotics.Python.Values.{Value, Items, nil, cons, Fields, end, entry, text}

module _ {F : Type 0} where
  -- `raw.get(name)`
  abbrev pub field : String → Fields F → Option (Value F)
  field name end = none
  field name (entry key value raw) = if str_eq key name then some value else field name raw

  abbrev pub keys : Fields F → List String
  keys end = []
  keys (entry key value raw) = key ∷ keys raw

  abbrev pub items : List String → Items F
  items [] = nil
  items (s ∷ names) = cons (text s) (items names)

  abbrev pub items_length : Items F → ℕ
  items_length nil = 0
  items_length (cons v vs) = 1 + items_length vs

-- `", ".join(names)`
abbrev pub join : List String → String
join [] = ""
join (s ∷ []) = s
join (s ∷ names) = format (s ∷ ", " ∷ join names ∷ [])

-- The names of one list that are not in another.
abbrev pub without : List String → List String → List String
without allowed [] = []
without allowed (n ∷ names) =
    let rest = without allowed names in if contains n allowed then rest else n ∷ rest

-- `sorted(set(raw) - allowed)`, for names that are distinct
abbrev pub unknown_names : List String → List String → List String
unknown_names allowed names = sort_by text_le (without allowed names)

abbrev pub is_nothing : List String → Bool
is_nothing [] = true
is_nothing (n ∷ names) = false
