-- ===== src/Prelude/Texts.antt =====
-- Python strings as lists of code points, compared and cut.
use Prim.Native.Nat.{ℕ, zero, suc}
use Prim.Native.Char.{code}
use Prim.Native.String.{String}
use mathlib.Core.Path.{◌≡◌, refl}
use mathlib.Core.Bool.{Bool, true, false, ◌&&◌}
use mathlib.Core.List.{List, [], ◌∷◌}
use native.Mathlib.Omega.{arith}
use boardtrace.Prelude.Tests.{◌==◌, leb}
use boardtrace.Prelude.Lists.{length, take}

abbrev pub Text : Type 0
Text = List ℕ

abbrev pub codes : String → Text
codes String.[] = []
codes (String.◌∷◌ c s) = code c ∷ codes s

unfoldable pub text_eq : Text → Text → Bool
text_eq [] [] = true
text_eq [] (y ∷ ys) = false
text_eq (x ∷ xs) [] = false
text_eq (x ∷ xs) (y ∷ ys) = x == y && text_eq xs ys

pub text_eq_refl : (s : Text) → text_eq s s ≡ true
unfolding text_eq
text_eq_refl [] = refl
text_eq_refl (x ∷ xs) = ground (arith, text_eq_refl xs)

pub eq_of_text_eq : (s t : Text) → text_eq s t ≡ true → s ≡ t
unfolding text_eq
eq_of_text_eq [] [] h = refl
eq_of_text_eq [] (y ∷ ys) h = cc
eq_of_text_eq (x ∷ xs) [] h = cc
eq_of_text_eq (x ∷ xs) (y ∷ ys) h = ground (arith, eq_of_text_eq xs ys)

-- Cutting a text leaves it as it is exactly when it is no longer than the cut.
pub take-text_eq : (n : ℕ) (w : Text) → text_eq (take n w) w ≡ leb (length w) n
unfolding text_eq take
take-text_eq zero [] = refl
take-text_eq zero (x ∷ w) = ground arith
take-text_eq (suc n) [] = ground arith
take-text_eq (suc n) (x ∷ w) = ground (arith, take-text_eq n w)
