-- ===== src/Python/Outcome.antt =====
-- Exceptions as values, and methods of an object: what a method wrote before it raised stays
-- written, so the state comes back beside the exception too.
use flyto_robotics.Prelude.{String, Option, none, some}

pub data Exception : Type 0 where
  value_error type_error runtime_error os_error semantic_map_error : String → Exception
  dependency_error human_decision_error key_error handoff_error : String → Exception
  safety_profile_error route_error : String → Exception

pub data Result {ℓ} (A : Type ℓ) : Type ℓ where
  ok : A → Result A
  raised : Exception → Result A

abbrev pub Action : Type 0 → Type 0 → Type 0
Action S A = S → Result A × S

module _ {S A : Type 0} where
  abbrev pub pure : A → Action S A
  pure a s = (ok a, s)

  abbrev pub raise : Exception → Action S A
  raise e s = (raised e, s)

  abbrev pub lift : Result A → Action S A
  lift r s = (r, s)

  abbrev pub gets : (S → A) → Action S A
  gets f s = (ok (f s), s)

  -- A method that cannot raise.
  abbrev pub run : (S → A × S) → Action S A
  run f s = let (a, s') = f s in (ok a, s')

  -- `if o is not None: return o`, and else go on.
  abbrev pub unless_some : Option A → Action S A → Action S A
  unless_some none m = m
  unless_some (some a) m = pure a

abbrev pub modify : {S : Type 0} → (S → S) → Action S (Unit {0})
modify f s = (ok tt, f s)

module _ {S A B : Type 0} where
  abbrev pub continue : Result A → (A → Action S B) → Action S B
  continue (ok a) f s = f a s
  continue (raised e) f s = (raised e, s)

  infixl 5 ◌>>=◌
  unfoldable pub ◌>>=◌ : Action S A → (A → Action S B) → Action S B
  ◌>>=◌ m f s = let (r, s') = m s in continue r f s'

infixl 5 ◌>>◌
abbrev pub ◌>>◌ : {S B : Type 0} → Action S (Unit {0}) → Action S B → Action S B
m >> k = m >>= λ _. k
