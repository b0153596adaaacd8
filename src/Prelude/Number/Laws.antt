-- ===== src/Prelude/Number/Laws.antt =====
-- Decimal numerals read back: what `String(n)` and `padStart` write, `split` and `Number` read.
use mathlib.Core.Path.{◌≡◌, refl, ap}
use mathlib.Core.Logic.{inl, inr}
use mathlib.Core.Option.{some}
use mathlib.Core.List.{[], ◌∷◌, ◌++◌}
use mathlib.Core.Bool.{true, false}
use Prim.Native.Nat.{ℕ, zero, suc, ◌+◌, ◌-◌, ◌/◌, ◌%◌, ◌<◌}
use native.Mathlib.Omega.{arith}
use mentorio.Prelude.Tests.{◌==◌, ltb, Bool-cases}
use mentorio.Prelude.Text.{Text, is_digit, IsDigits}
use mentorio.Prelude.Lists.{length}
use mentorio.Prelude.Number.{
  number_from, number, cons_first, split, digits_onto, show, zeros, pad_start,
}

digit_test : (n : ℕ) → n < 10 → is_digit (b'0' + n) ≡ true
digit_test n h = ground arith

number_from-digits_onto :
    (fuel n : ℕ) (rest : Text)
    → n < fuel
    → number_from 0 (digits_onto fuel n rest) ≡ number_from n rest
unfolding number_from digits_onto
number_from-digits_onto zero n rest h = absurd (omega arith)
number_from-digits_onto (suc fuel) n rest h = elim (Bool-cases (ltb n 10)) [
  | inl small ↦
      rw (small, digit_test n (ground arith), number_from)
        (ap (λ k. number_from k rest) (omega arith))
  | inr big ↦
      rw (big, number_from-digits_onto fuel (n / 10) ((b'0' + n % 10) ∷ rest) (ground arith))
        (rw (digit_test (n % 10) (omega arith), number_from)
          (ap (λ k. number_from k rest) (omega arith)))
]

pub number-show : (n : ℕ) → number (show n) ≡ some n
unfolding number show number_from
number-show n = number_from-digits_onto (suc n) n [] (omega arith)

digits_onto-IsDigits :
    (fuel n : ℕ) (rest : Text) → IsDigits rest → IsDigits (digits_onto fuel n rest)
unfolding digits_onto
digits_onto-IsDigits zero n rest h = h
digits_onto-IsDigits (suc fuel) n rest h = elim (Bool-cases (ltb n 10)) [
  | inl small ↦ rw small (digit_test n (ground arith), h)
  | inr big ↦ rw big (
      digits_onto-IsDigits fuel (n / 10) ((b'0' + n % 10) ∷ rest)
        (digit_test (n % 10) (omega arith), h))
]

pub show-IsDigits : (n : ℕ) → IsDigits (show n)
unfolding show
show-IsDigits n = digits_onto-IsDigits (suc n) n [] tt

zeros-IsDigits : (k : ℕ) (s : Text) → IsDigits s → IsDigits (zeros k s)
unfolding zeros
zeros-IsDigits zero s h = h
zeros-IsDigits (suc k) s h = (refl, zeros-IsDigits k s h)

pub pad_start-IsDigits : (width : ℕ) (s : Text) → IsDigits s → IsDigits (pad_start width s)
unfolding pad_start
pad_start-IsDigits width s h = zeros-IsDigits (width - length s) s h

number-zeros : (k : ℕ) (s : Text) → number (zeros k s) ≡ number s
unfolding number number_from zeros
number-zeros zero s = refl
number-zeros (suc k) s = number-zeros k s

-- Zeros in front change nothing.
pub number-pad_start : (width : ℕ) (s : Text) → number (pad_start width s) ≡ number s
unfolding pad_start
number-pad_start width s = number-zeros (width - length s) s

-- A separator that is no digit ends a run of digits.
module _ (sep : ℕ) (other : is_digit sep ≡ false) where
  unequal : (c : ℕ) → is_digit c ≡ true → (c == sep) ≡ false
  unequal c h = ground arith

  pub split-digits : (s rest : Text) → IsDigits s → split sep (s ++ sep ∷ rest) ≡ s ∷ split sep rest
  unfolding split cons_first
  split-digits [] rest h = ground arith
  split-digits (c ∷ s) rest (d, h) = rw (unequal c d, split-digits s rest h) refl

  pub split-digits_last : (s : Text) → IsDigits s → split sep s ≡ s ∷ []
  unfolding split cons_first
  split-digits_last [] h = refl
  split-digits_last (c ∷ s) (d, h) = rw (unequal c d, split-digits_last s h) refl
