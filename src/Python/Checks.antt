-- ===== src/Python/Checks.antt =====
-- Functions that may raise and keep no state: the `do` blocks of the constructors and parsers.
use flyto_robotics.Prelude.{Bool, true, false, ◌≡◌, refl, if◌then◌else◌}
use flyto_robotics.Python.Outcome.{Exception, Result, ok, raised}

-- `if test: raise e`
abbrev pub raise_if : Bool → Exception → Result (Unit {0})
raise_if b e = if b then raised e else ok tt

infixl 5 ◌>>=◌ ◌>>◌
abbrev pub ◌>>=◌ {ℓ κ} : {A : Type ℓ} {B : Type κ} → Result A → (A → Result B) → Result B
ok a >>= f = f a
raised e >>= f = raised e

abbrev pub ◌>>◌ {ℓ} : {B : Type ℓ} → Result (Unit {0}) → Result B → Result B
m >> k = m >>= λ _. k

-- What is computed, if no exception is raised, has the property.
abbrev pub OkAnd : {A : Type 0} → (A → Type 0) → Result A → Type 0
OkAnd P (ok a) = P a
OkAnd P (raised e) = Unit

pub OkAnd-bind :
    {A B : Type 0} (P : B → Type 0) (Q : A → Type 0) (m : Result A) (f : A → Result B)
    → OkAnd Q m
    → ((a : A) → Q a → OkAnd P (f a))
    → OkAnd P (m >>= f)
OkAnd-bind P Q (ok a) f h k = k a h
OkAnd-bind P Q (raised e) f h k = tt

pub OkAnd-raise_if : (b : Bool) (e : Exception) → OkAnd (λ u. b ≡ false) (raise_if b e)
OkAnd-raise_if true e = tt
OkAnd-raise_if false e = refl

pub OkAnd-trivial : {A : Type 0} (m : Result A) → OkAnd (λ a. Unit {0}) m
OkAnd-trivial (ok a) = tt
OkAnd-trivial (raised e) = tt

pub OkAnd-test :
    {A : Type 0} (P : A → Type 0) (b : Bool) (a : A) (e : Exception)
    → (b ≡ true → P a)
    → OkAnd P (if b then ok a else raised e)
OkAnd-test P true a e h = h refl
OkAnd-test P false a e h = tt

pub OkAnd-self : {A : Type 0} (m : Result A) → OkAnd (λ a. m ≡ ok a) m
OkAnd-self (ok a) = refl
OkAnd-self (raised e) = tt

-- A test that passes is false, and the rest follows it.
pub OkAnd-test_then :
    {A : Type 0} (P : A → Type 0) (b : Bool) (e : Exception) (k : Result A)
    → (b ≡ false → OkAnd P k)
    → OkAnd P (raise_if b e >> k)
OkAnd-test_then P true e k h = tt
OkAnd-test_then P false e k h = h refl

-- What a computation returned is known behind it.
pub OkAnd-then :
    {A B : Type 0} (P : B → Type 0) (m : Result A) (f : A → Result B)
    → ((a : A) → m ≡ ok a → OkAnd P (f a))
    → OkAnd P (m >>= f)
OkAnd-then P (ok a) f k = k a refl
OkAnd-then P (raised e) f k = tt
