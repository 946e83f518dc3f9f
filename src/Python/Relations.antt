-- ===== src/Python/Relations.antt =====
-- What a method does to its object, as a relation between the state before and after it, whether
-- the method returns or raises; with one rule for each way to build a method.
use flyto_robotics.Prelude.{Bool, true, false, Option, none, some, if◌then◌else◌}
use flyto_robotics.Python.Outcome.{
  Exception, Result, ok, raised, Action, pure, raise, lift, gets, run, modify, unless_some,
  continue, ◌>>=◌,
}

pub record Respects {S A : Type 0} (R : S → S → Type 0) (m : Action S A) : Type 0 where
  pub at : (s : S) → R s (m s).1

module _ {S A : Type 0} {R : S → S → Type 0} where
  pub Respects-if :
      (b : Bool) (m n : Action S A) → Respects R m → Respects R n → Respects R (if b then m else n)
  Respects-if true m n h k = h
  Respects-if false m n h k = k

  pub Respects-run : (f : S → A × S) → ((s : S) → R s (f s).1) → Respects R (run f)
  Respects-run f h = record { at = h }

module _ {S A : Type 0} {R : S → S → Type 0} (reflexive : (s : S) → R s s) where
  pub Respects-pure : (a : A) → Respects R (pure a)
  Respects-pure a = record { at = reflexive }

  pub Respects-lift : (r : Result A) → Respects R (lift r)
  Respects-lift r = record { at = reflexive }

  pub Respects-gets : (f : S → A) → Respects R (gets f)
  Respects-gets f = record { at = reflexive }

  pub Respects-raise : (e : Exception) → Respects R (raise {A = A} e)
  Respects-raise e = record { at = reflexive }

  pub Respects-unless_some :
      (o : Option A) (m : Action S A) → Respects R m → Respects R (unless_some o m)
  Respects-unless_some none m h = h
  Respects-unless_some (some a) m h = record { at = reflexive }

pub Respects-modify :
    {S : Type 0} {R : S → S → Type 0} (f : S → S) → ((s : S) → R s (f s)) → Respects R (modify f)
Respects-modify f h = record { at = h }

-- A method that first does what `P` allows and then what `Q` allows.
module _ {S A B : Type 0} {P Q R : S → S → Type 0} (drop : (s t : S) → P s t → R s t)
    (mix : (s t u : S) → P s t → Q t u → R s u) where
  Respects-continue :
      (r : Result A) (f : A → Action S B)
      → ((a : A) → Respects Q (f a))
      → (s t : S) → P s t
      → R s (continue r f t).1
  Respects-continue (ok a) f k s t h = mix s t (f a t).1 h ((k a).at t)
  Respects-continue (raised e) f k s t h = drop s t h

  pub Respects-bind :
      (m : Action S A) (f : A → Action S B)
      → Respects P m
      → ((a : A) → Respects Q (f a))
      → Respects R (m >>= f)
  unfolding ◌>>=◌
  Respects-bind m f h k = record {
    at = λ s. let (r, t) = m s in Respects-continue r f k s t (h.at s);
  }
