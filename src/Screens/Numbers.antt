-- ===== src/Screens/Numbers.antt =====
-- Numbers as they are typed: `sanitizeNumeric` of frontend/components/ui/input.tsx, and `trim` and
-- `Number` on the text of an input.
pub mod Laws
use Prim.Native.Nat.{◌^◌}
use mathlib.Core.Option.{map as map_option}
use mentorio.Prelude.{
  ℕ, zero, suc, ◌+◌, ◌*◌, Bool, ◌&&◌, ◌||◌, not, Option, none, some, List, [], ◌∷◌, ◌++◌, map,
  if◌then◌else◌, ◌==◌, all, length,
}
use mentorio.Prelude.Int.{ℤ, pos, negsuc, pos_part, neg_part, sub_ℕ}
use mentorio.Prelude.Text.{Text, is_digit}
use mentorio.Prelude.Number.{number, split}
use mentorio.Json.{Decimal}
use mentorio.Api.Students.{is_space}

-- `raw.replace(/[^\d.]/g, "")`
unfoldable pub digits_and_dots : Text → Text
digits_and_dots [] = []
digits_and_dots (c ∷ s) =
    let rest = digits_and_dots s in if is_digit c || c == b'.' then c ∷ rest else rest

-- `s.replace(/\./g, "")`
unfoldable pub without_dots : Text → Text
without_dots [] = []
without_dots (c ∷ s) = let rest = without_dots s in if c == b'.' then rest else c ∷ rest

-- What `sanitizeNumeric` makes of the digits and dots: all up to the first dot, and the digits
-- behind it.
unfoldable pub one_dot : Text → Text
one_dot [] = []
one_dot (c ∷ s) = let rest = one_dot s in if c == b'.' then c ∷ without_dots s else c ∷ rest

unfoldable pub sanitize_numeric : Text → Text
unfolding digits_and_dots one_dot
sanitize_numeric raw = one_dot (digits_and_dots raw)

-- `raw !== undefined && raw.trim() !== ""`
unfoldable pub has_entered_value : Option Text → Bool
has_entered_value none = Bool.false
has_entered_value (some raw) = not (all is_space raw)

trim_start : Text → Text
trim_start [] = []
trim_start (c ∷ s) = let rest = trim_start s in if is_space c then rest else c ∷ s

-- A space goes if only spaces follow it.
unfoldable pub trim_end : Text → Text
trim_end [] = []
trim_end (c ∷ s) = let rest = trim_end s in if is_space c && all is_space s then [] else c ∷ rest

-- `s.trim()`
unfoldable pub trim : Text → Text
unfolding trim_start trim_end
trim s = trim_end (trim_start s)

digits_value : Text → Option ℕ
digits_value [] = none
digits_value (c ∷ s) = number (c ∷ s)

-- Digits with at most one point among them.
unfoldable pub mantissa : List Text → Option Decimal
mantissa (whole ∷ []) = map_option (λ n. record { units = pos n; scale = 0 }) (number whole)
mantissa ([] ∷ [] ∷ []) = none
mantissa (whole ∷ fraction ∷ []) =
    map_option (λ n. record { units = pos n; scale = length fraction }) (number (whole ++ fraction))
mantissa _ = none

-- A number without its sign, of the digits and the point alone; the empty text is 0.
unfoldable pub plain_number : Text → Option Decimal
unfolding mantissa split number
plain_number s = mantissa (split b'.' s)

unsigned : Text → Option Decimal
unsigned [] = none
unsigned (c ∷ s) = plain_number (c ∷ s)

negate : Decimal → Decimal
negate d = record d { units = sub_ℕ (neg_part d.units) (pos_part d.units) }

unfoldable pub signed : Text → Option Decimal
unfolding negate unsigned
signed [] = none
signed (c ∷ s) =
    if c == b'-'
    then map_option negate (unsigned s)
    else if c == b'+'
    then unsigned s
    else plain_number (c ∷ s)

-- The value times ten to a power.
raised : Decimal → ℤ → Decimal
raised d (pos n) = record d {
  units = sub_ℕ (pos_part d.units * 10 ^ n) (neg_part d.units * 10 ^ n);
}
raised d (negsuc n) = record d { scale = d.scale + suc n }

exponent : Text → Option ℤ
exponent [] = none
exponent (c ∷ s) =
    if c == b'-'
    then map_option (λ n. sub_ℕ 0 n) (digits_value s)
    else map_option pos (if c == b'+' then digits_value s else number (c ∷ s))

exponential : List Text → Option Decimal
exponential (m ∷ []) = signed m
exponential (m ∷ e ∷ []) = elim (signed m) [
  | none ↦ none
  | some d ↦ map_option (raised d) (exponent e)
]
exponential _ = none

small_e : ℕ → ℕ
small_e c = if c == b'E' then b'e' else c

-- `Number(s)`, `none` being NaN; a blank text is 0. The words for infinity and the numerals in other
-- bases, which no numeric input delivers, are read as NaN. Numbers are exact.
unfoldable pub number_value : Text → Option Decimal
unfolding trim signed exponential raised exponent digits_value small_e split
number_value s = elim (trim s) [
  | [] ↦ some (record { units = pos 0; scale = 0 })
  | c ∷ rest ↦ exponential (split b'e' (map small_e (c ∷ rest)))
]
