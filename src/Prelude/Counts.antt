-- ===== src/Prelude/Counts.antt =====
-- How many elements of a list pass a test.
use Prim.Native.Nat.{ℕ, ◌+◌, ◌≤◌}
use mathlib.Core.Path.{◌≡◌, refl}
use mathlib.Core.Logic.{inl, inr}
use mathlib.Core.Bool.{Bool, true, false}
use mathlib.Core.Option.{none}
use mathlib.Core.List.{List, [], ◌∷◌, ◌++◌}
use native.Mathlib.Omega.{arith}
use boardtrace.Prelude.Tests.{◌==◌, Bool-cases}
use boardtrace.Prelude.Lists.{filter, find, count, put_by, All}

module _ {A : Type 0} where
  pub count-append : (p : A → Bool) (xs ys : List A) → count p (xs ++ ys) ≡ count p xs + count p ys
  count-append p [] ys = omega arith
  count-append p (x ∷ xs) ys = ground (arith, count-append p xs ys)

  pub count-find-none : (p : A → Bool) (xs : List A) → find p xs ≡ none → count p xs ≡ 0
  count-find-none p [] h = refl
  count-find-none p (x ∷ xs) h = ground (arith, count-find-none p xs)

  pub count-put_by :
      (key : A → ℕ) (row : A) (k : ℕ) (xs : List A)
      → count (λ x. key x == k) (put_by key row xs) ≡ count (λ x. key x == k) xs
  unfolding put_by
  count-put_by key row k [] = refl
  count-put_by key row k (x ∷ xs) = elim (Bool-cases (key x == key row)) [
    | inl hit ↦ let same : (key x == k) ≡ (key row == k) = ground arith in rw (hit, same) refl
    | inr miss ↦ rw (miss, count-put_by key row k xs) refl
  ]

  pub count-filter-le : (p q : A → Bool) (xs : List A) → count p (filter q xs) ≤ count p xs
  count-filter-le p q [] = omega arith
  count-filter-le p q (x ∷ xs) = ground (arith, count-filter-le p q xs)

  pub count-imp :
      (p q : A → Bool) (xs : List A) → ((x : A) → p x ≡ true → q x ≡ true) → count p xs ≤ count q xs
  count-imp p q [] imp = omega arith
  count-imp p q (x ∷ xs) imp = ground (arith, imp x, count-imp p q xs imp)

  pub count-filter-nil : (p : A → Bool) (xs : List A) → filter p xs ≡ [] → count p xs ≡ 0
  count-filter-nil p [] h = refl
  count-filter-nil p (x ∷ xs) h = ground (arith, count-filter-nil p xs)

  pub count-unless : (p : A → Bool) (xs : List A) → All (λ x. p x ≡ false) xs → count p xs ≡ 0
  count-unless p [] a = refl
  count-unless p (x ∷ xs) (h, a) = ground (arith, count-unless p xs a)
