-- ===== src/Prelude/Alls.antt =====
-- Predicates that hold of every element, under the operations on lists.
use Prim.Native.Nat.{ℕ}
use mathlib.Core.Path.{◌≡◌, refl}
use mathlib.Core.Logic.{inl, inr}
use mathlib.Core.Bool.{Bool, true, false, not}
use mathlib.Core.Option.{some}
use mathlib.Core.List.{List, [], ◌∷◌, ◌++◌, map}
use native.Mathlib.Omega.{arith}
use boardtrace.Prelude.Tests.{◌==◌, if◌then◌else◌, Bool-cases, is_some}
use boardtrace.Prelude.Lists.{filter, find, put_by, All}

module _ {A : Type 0} (P : A → Type 0) where
  pub All-append : (xs ys : List A) → All P xs → All P ys → All P (xs ++ ys)
  All-append [] ys a b = b
  All-append (x ∷ xs) ys (p, a) b = (p, All-append xs ys a b)

  All-if : (b : Bool) (xs ys : List A) → All P xs → All P ys → All P (if b then xs else ys)
  All-if true xs ys a b = a
  All-if false xs ys a b = b

  pub All-filter : (p : A → Bool) (xs : List A) → All P xs → All P (filter p xs)
  All-filter p [] a = tt
  All-filter p (x ∷ xs) (h, a) =
      let rest = All-filter p xs a in All-if (p x) (x ∷ filter p xs) (filter p xs) (h, rest) rest

  pub All-imp : (Q : A → Type 0) (xs : List A) → ((x : A) → P x → Q x) → All P xs → All Q xs
  All-imp Q [] f a = tt
  All-imp Q (x ∷ xs) f (p, a) = (f x p, All-imp Q xs f a)

  pub All-map : {B : Type 0} (g : B → A) (xs : List B) → ((x : B) → P (g x)) → All P (map g xs)
  All-map g [] f = tt
  All-map g (x ∷ xs) f = (f x, All-map g xs f)

  pub find-All : (p : A → Bool) (xs : List A) {a : A} → All P xs → find p xs ≡ some a → P a
  find-All p [] a h = absurd (ground arith)
  find-All p (x ∷ xs) {a} (h, all) found = elim (Bool-cases (p x)) [
    | inl hit ↦ let same : a ≡ x = ground arith in rw same h
    | inr miss ↦ find-All p xs all (ground arith)
  ]

  pub All-everything : (xs : List A) → ((x : A) → P x) → All P xs
  All-everything [] f = tt
  All-everything (x ∷ xs) f = (f x, All-everything xs f)

  pub All-put_by :
      (key : A → ℕ) (row : A) (xs : List A) → P row → All P xs → All P (put_by key row xs)
  unfolding put_by
  All-put_by key row [] h a = tt
  All-put_by key row (x ∷ xs) h (p, a) =
      All-if (key x == key row) (row ∷ xs) (x ∷ put_by key row xs) (h, a)
        (p, All-put_by key row xs h a)

module _ {A : Type 0} where
  pub filter-append :
      (p : A → Bool) (xs ys : List A) → filter p (xs ++ ys) ≡ filter p xs ++ filter p ys
  filter-append p [] ys = refl
  filter-append p (x ∷ xs) ys = ground (arith, filter-append p xs ys)

  pub filter-all : (p : A → Bool) (xs : List A) → All (λ x. p x ≡ true) xs → filter p xs ≡ xs
  filter-all p [] a = refl
  filter-all p (x ∷ xs) (h, a) = rw (h, filter-all p xs a) refl

  pub filter-none : (p : A → Bool) (xs : List A) → All (λ x. p x ≡ false) xs → filter p xs ≡ []
  filter-none p [] a = refl
  filter-none p (x ∷ xs) (h, a) = rw (h, filter-none p xs a) refl

  pub filter-not : (p : A → Bool) (xs : List A) → filter p (filter (λ x. not (p x)) xs) ≡ []
  filter-not p [] = refl
  filter-not p (x ∷ xs) = elim (Bool-cases (p x)) [
    | inl hit ↦ ground (arith, filter-not p xs)
    | inr miss ↦ ground (arith, filter-not p xs)
  ]

  -- The first row of a wider test that passes a narrower one is the first of the narrower one.
  pub find-narrow :
      (p q : A → Bool) (xs : List A) {a : A}
      → All (λ x. q x ≡ true → p x ≡ true) xs
      → find p xs ≡ some a
      → q a ≡ true
      → find q xs ≡ some a
  find-narrow p q [] w h e = absurd (ground arith)
  find-narrow p q (x ∷ xs) {a} (w, ws) h e = elim (Bool-cases (p x)) [
    | inl hit ↦ let same : x ≡ a = ground arith in ground arith
    | inr miss ↦ elim (Bool-cases (q x)) [
      | inl also ↦ absurd (ground (arith, w also))
      | inr other ↦
          let rest : find q xs ≡ some a = find-narrow p q xs ws (ground arith) e in ground arith
    ]
  ]

  pub is_some-find-put_by :
      (key : A → ℕ) (k : ℕ) (row : A) (xs : List A)
      → is_some (find (λ x. key x == k) xs) ≡ true
      → is_some (find (λ x. key x == k) (put_by key row xs)) ≡ true
  unfolding put_by
  is_some-find-put_by key k row [] h = h
  is_some-find-put_by key k row (x ∷ xs) h = elim (Bool-cases (key x == k)) [
    | inl hit ↦ ground arith
    | inr miss ↦
        let rest : is_some (find (λ x. key x == k) (put_by key row xs)) ≡ true =
          is_some-find-put_by key k row xs (ground arith) in
        ground arith
  ]

  pub is_some-find-append :
      (p : A → Bool) (xs ys : List A)
      → is_some (find p xs) ≡ true
      → is_some (find p (xs ++ ys)) ≡ true
  is_some-find-append p [] ys h = absurd (ground arith)
  is_some-find-append p (x ∷ xs) ys h = elim (Bool-cases (p x)) [
    | inl hit ↦ ground arith
    | inr miss ↦
        let rest : is_some (find p (xs ++ ys)) ≡ true =
          is_some-find-append p xs ys (ground arith) in
        ground arith
  ]
