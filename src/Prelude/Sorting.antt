-- ===== src/Prelude/Sorting.antt =====
-- Python's `sorted`: stable insertion by a Boolean order.
use Prim.Native.Nat.{ℕ, zero, suc, ◌+◌, Ordering, compare as compare_ℕ}
use Prim.Native.Nat.compare as compare_ℕ
use Prim.Native.Char.{code}
use Prim.Native.String.compare as compare_text
use Prim.Native.String.{then as first_of}
use Prim.Native.String.{String, compare}
use mathlib.Core.Path.{◌≡◌, refl}
use native.Mathlib.Omega.{arith}
use mathlib.Core.Bool.{Bool, true, false, ◌||◌}
use mathlib.Core.List.{List, [], ◌∷◌}
use flyto_robotics.Prelude.Lists.{length, All}
use flyto_robotics.Prelude.Tests.{if_split, if_ind, if◌then◌else◌}
use flyto_robotics.Prelude.Texts.{contains, str_eq}

-- `a <= b` on texts
abbrev pub text_le : String → String → Bool
text_le a b = elim (compare a b) [ Ordering.gt ↦ false | _ ↦ true ]

module _ {ℓ} {A : Type ℓ} where
  unfoldable pub insert_by : (A → A → Bool) → A → List A → List A
  insert_by le x [] = x ∷ []
  insert_by le x (y ∷ ys) = if le x y then x ∷ y ∷ ys else y ∷ insert_by le x ys

  unfoldable pub sort_by : (A → A → Bool) → List A → List A
  unfolding insert_by
  sort_by le [] = []
  sort_by le (x ∷ xs) = insert_by le x (sort_by le xs)

contains-insert_by :
    (le : String → String → Bool) (k x : String) (xs : List String)
    → contains k (insert_by le x xs) ≡ (str_eq x k || contains k xs)
unfolding insert_by
contains-insert_by le k x [] = refl
contains-insert_by le k x (y ∷ ys) = ground (arith, contains-insert_by le k x ys)

pub contains-sort_by :
    (le : String → String → Bool) (k : String) (xs : List String)
    → contains k (sort_by le xs) ≡ contains k xs
unfolding sort_by
contains-sort_by le k [] = refl
contains-sort_by le k (x ∷ xs) =
    ground (arith, contains-insert_by le k x (sort_by le xs), contains-sort_by le k xs)

abbrev flip : Ordering → Ordering
flip Ordering.lt = Ordering.gt
flip Ordering.eq = Ordering.eq
flip Ordering.gt = Ordering.lt

compare_ℕ-flip : (m n : ℕ) → compare_ℕ n m ≡ flip (compare_ℕ m n)
compare_ℕ-flip zero zero = rw compare_ℕ.zero-zero refl
compare_ℕ-flip zero (suc n) = rw (compare_ℕ.suc-zero n, compare_ℕ.zero-suc n) refl
compare_ℕ-flip (suc m) zero = rw (compare_ℕ.suc-zero m, compare_ℕ.zero-suc m) refl
compare_ℕ-flip (suc m) (suc n) =
    rw (compare_ℕ.suc-suc m n, compare_ℕ.suc-suc n m) (compare_ℕ-flip m n)

first_of-flip : (a b : Ordering) → first_of (flip a) (flip b) ≡ flip (first_of a b)
first_of-flip Ordering.lt b = refl
first_of-flip Ordering.eq b = refl
first_of-flip Ordering.gt b = refl

compare-flip : (s t : String) → compare t s ≡ flip (compare s t)
compare-flip String.[] String.[] = rw compare_text.nil-nil refl
compare-flip String.[] (String.◌∷◌ d t) =
    rw (compare_text.cons-nil d t, compare_text.nil-cons d t) refl
compare-flip (String.◌∷◌ c s) String.[] =
    rw (compare_text.cons-nil c s, compare_text.nil-cons c s) refl
compare-flip (String.◌∷◌ c s) (String.◌∷◌ d t) =
    rw
      (
        compare_text.cons-cons c d s t,
        compare_text.cons-cons d c t s,
        compare_ℕ-flip (code c) (code d),
        compare-flip s t,
      )
      (first_of-flip (compare_ℕ (code c) (code d)) (compare s t))

at_order :
    (o p : Ordering)
    → p ≡ flip o
    → (elim o [ Ordering.gt ↦ false | _ ↦ true ]) ≡ false
    → (elim p [ Ordering.gt ↦ false | _ ↦ true ]) ≡ true
at_order Ordering.lt p e h = cc
at_order Ordering.eq p e h = cc
at_order Ordering.gt p e h = rw e refl

pub text_le_total : (a b : String) → text_le a b ≡ false → text_le b a ≡ true
text_le_total a b h = at_order (compare a b) (compare b a) (compare-flip a b) h

-- The first entry, if there is one, may stand behind `x`.
abbrev pub Leads {ℓ} : {A : Type ℓ} → (A → A → Bool) → A → List A → Type 0
Leads le x [] = Unit
Leads le x (y ∷ ys) = le x y ≡ true

-- Each entry may stand before the next.
abbrev pub IsSorted {ℓ} : {A : Type ℓ} → (A → A → Bool) → List A → Type 0
IsSorted le [] = Unit
IsSorted le (x ∷ xs) = Leads le x xs × IsSorted le xs

module _ {ℓ} {A : Type ℓ} (le : A → A → Bool)
    (total : (x y : A) → le x y ≡ false → le y x ≡ true) where
  Leads-insert_by :
      (x y : A) (ys : List A) → le y x ≡ true → Leads le y ys → Leads le y (insert_by le x ys)
  unfolding insert_by
  Leads-insert_by x y [] e h = e
  Leads-insert_by x y (z ∷ zs) e h = if_ind (Leads le y) (le x z) e h

  insert_by-IsSorted : (x : A) (ys : List A) → IsSorted le ys → IsSorted le (insert_by le x ys)
  unfolding insert_by
  insert_by-IsSorted x [] h = (tt, tt)
  insert_by-IsSorted x (y ∷ ys) h =
      if_split (IsSorted le) (le x y) (λ e. (e, h))
        λ e. (Leads-insert_by x y ys (total x y e) h.0, insert_by-IsSorted x ys h.1)

  pub sort_by-IsSorted : (xs : List A) → IsSorted le (sort_by le xs)
  unfolding sort_by
  sort_by-IsSorted [] = tt
  sort_by-IsSorted (x ∷ xs) = insert_by-IsSorted x (sort_by le xs) (sort_by-IsSorted xs)

module _ {ℓ} {A : Type ℓ} (le : A → A → Bool) where
  length-insert_by : (x : A) (ys : List A) → length (insert_by le x ys) ≡ 1 + length ys
  unfolding insert_by
  length-insert_by x [] = refl
  length-insert_by x (y ∷ ys) = ground (arith, length-insert_by x ys)

  pub length-sort_by : (xs : List A) → length (sort_by le xs) ≡ length xs
  unfolding sort_by
  length-sort_by [] = refl
  length-sort_by (x ∷ xs) = ground (arith, length-insert_by x (sort_by le xs), length-sort_by xs)

  All-insert_by :
      (P : A → Type 0) (x : A) (ys : List A) → P x → All P ys → All P (insert_by le x ys)
  unfolding insert_by
  All-insert_by P x [] h k = (h, tt)
  All-insert_by P x (y ∷ ys) h k = if_ind (All P) (le x y) (h, k) (k.0, All-insert_by P x ys h k.1)

  pub All-sort_by : (P : A → Type 0) (xs : List A) → All P xs → All P (sort_by le xs)
  unfolding sort_by
  All-sort_by P [] h = h
  All-sort_by P (x ∷ xs) h = All-insert_by P x (sort_by le xs) h.0 (All-sort_by P xs h.1)
