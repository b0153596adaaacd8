-- ===== src/Prelude/Number.antt =====
-- Decimal numerals as the program reads and writes them: `Number(s)`, `String(n)`, `split` and
-- `padStart`.
pub mod Laws
use mathlib.Core.List.{List, [], ◌∷◌}
use mathlib.Core.Option.{Option, none, some}
use Prim.Native.Nat.{ℕ, zero, suc, ◌+◌, ◌-◌, ◌*◌, ◌/◌, ◌%◌}
use mentorio.Prelude.Tests.{◌==◌, ltb, if◌then◌else◌}
use mentorio.Prelude.Text.{Text, is_digit}
use mentorio.Prelude.Lists.{length}

-- Reads on from the value so far; `none` (NaN) at a character that is no digit.
unfoldable pub number_from : ℕ → Text → Option ℕ
number_from acc [] = some acc
number_from acc (c ∷ s) =
    let rest = number_from (acc * 10 + (c - b'0')) s in if is_digit c then rest else none

-- `Number(s)` on digits alone; the empty text is 0. Other forms (signs, spaces, exponents) do not
-- occur in the program's texts and are read as NaN. The value is exact, as that of a double is for a
-- numeral of up to 15 digits; a longer one, which a double rounds or makes infinite, does not occur.
unfoldable pub number : Text → Option ℕ
unfolding number_from
number s = number_from 0 s

cons_first : ℕ → List Text → List Text
cons_first c [] = (c ∷ []) ∷ []
cons_first c (s ∷ rest) = (c ∷ s) ∷ rest

-- `s.split(sep)` for a separator of one character.
unfoldable pub split : ℕ → Text → List Text
unfolding cons_first
split sep [] = [] ∷ []
split sep (c ∷ s) = let rest = split sep s in if c == sep then [] ∷ rest else cons_first c rest

-- The digits of `n`, before those of `rest`; `suc n` rounds are enough.
digits_onto : ℕ → ℕ → Text → Text
digits_onto zero n rest = rest
digits_onto (suc fuel) n rest =
    let more = digits_onto fuel (n / 10) ((b'0' + n % 10) ∷ rest) in
    if ltb n 10 then (b'0' + n) ∷ rest else more

-- `String(n)`
unfoldable pub show : ℕ → Text
unfolding digits_onto
show n = digits_onto (suc n) n []

zeros : ℕ → Text → Text
zeros zero s = s
zeros (suc k) s = b'0' ∷ zeros k s

-- `s.padStart(width, "0")`
unfoldable pub pad_start : ℕ → Text → Text
unfolding zeros
pad_start width s = zeros (width - length s) s
