-- ===== src/Phone.antt =====
-- frontend/lib/phone.ts: the canonical form of an Uzbek phone number.
pub mod Canonical
mod Tests
use mentorio.Prelude.{
  Bool, true, false, ◌&&◌, Option, none, some, List, [], ◌∷◌, ◌++◌, if◌then◌else◌, ◌==◌, length,
}
use mentorio.Prelude.Text.{Text, codes, is_digit, starts_with}

-- `raw.replace(/\D/g, "")`
unfoldable pub digits_of : Text → Text
digits_of [] = []
digits_of (c ∷ s) = let rest = digits_of s in if is_digit c then c ∷ rest else rest

-- Nine digits are a number without the country's code.
unfoldable pub with_code : Text → Text
with_code digits = if length digits == 9 then codes "998" ++ digits else digits

abbrev pub is_national : Text → Bool
is_national digits = length digits == 12 && starts_with digits (codes "998")

unfoldable pub normalize_uz_phone : Text → Option Text
unfolding digits_of with_code
normalize_uz_phone raw =
    let digits = with_code (digits_of raw) in
    if is_national digits then some (b'+' ∷ digits) else none
