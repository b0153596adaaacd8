-- ===== src/Phone/Canonical.antt =====
-- What normalizeUzPhone of frontend/lib/phone.ts returns.
use mathlib.Core.Option.{some-injective}
use mathlib.Core.Path.{subst}
use mentorio.Prelude.{
  ◌≡◌, refl, ap, sym, inl, inr, true, some, [], ◌∷◌, ◌==◌, length, Bool-cases, arith,
}
use mentorio.Prelude.Text.{IsDigits, Text, codes, is_digit, starts_with}
use mentorio.Phone.{digits_of, with_code, is_national, normalize_uz_phone}

-- A plus sign and twelve digits, the first three of them 998.
abbrev pub IsCanonical : Text → Type 0
IsCanonical n =
    (digits : Text) × (n ≡ b'+' ∷ digits)
    × (length digits ≡ 12)
    × (starts_with digits (codes "998") ≡ true)
    × IsDigits digits

digits_of-IsDigits : (s : Text) → IsDigits (digits_of s)
unfolding digits_of
digits_of-IsDigits [] = tt
digits_of-IsDigits (c ∷ s) = elim (Bool-cases (is_digit c)) [
  | inl digit ↦ rw (digit, digits_of) (digit, digits_of-IsDigits s)
  | inr other ↦ rw (other, digits_of) (digits_of-IsDigits s)
]

digits_of_digits : (s : Text) → IsDigits s → digits_of s ≡ s
unfolding digits_of
digits_of_digits [] h = refl
digits_of_digits (c ∷ s) (d, h) = rw (d, digits_of) (ap (λ t. c ∷ t) (digits_of_digits s h))

with_code-IsDigits : (s : Text) → IsDigits s → IsDigits (with_code s)
unfolding with_code
with_code-IsDigits s h = elim (Bool-cases (length s == 9)) [
  | inl short ↦ rw (short, with_code) (refl, (refl, (refl, h)))
  | inr other ↦ rw (other, with_code) h
]

with_code_twelve : (s : Text) → length s ≡ 12 → with_code s ≡ s
unfolding with_code
with_code_twelve s h = rw (h, with_code) refl

national-length :
    (s : Text) → is_national s ≡ true → (length s ≡ 12) × (starts_with s (codes "998") ≡ true)
national-length s h = ground arith

normalize-canonical :
    (digits : Text)
    → IsDigits digits
    → length digits ≡ 12
    → starts_with digits (codes "998") ≡ true
    → normalize_uz_phone (b'+' ∷ digits) ≡ some (b'+' ∷ digits)
unfolding normalize_uz_phone digits_of
normalize-canonical digits h twelve code =
    rw (digits_of_digits digits h, with_code_twelve digits twelve, twelve, code, normalize_uz_phone)
      refl

-- A number that is accepted is returned in the canonical form, and normalizing it again changes
-- nothing.
pub normalize_uz_phone-IsCanonical :
    (raw n : Text)
    → normalize_uz_phone raw ≡ some n
    → IsCanonical n × (normalize_uz_phone n ≡ some n)
unfolding normalize_uz_phone
normalize_uz_phone-IsCanonical raw n e =
    let digits = with_code (digits_of raw) in
    elim (Bool-cases (is_national digits)) [
      | inr bad ↦ cc (rw (bad, normalize_uz_phone) at e)
      | inl good ↦
          let (twelve, code) = national-length digits good in
          let h = with_code-IsDigits (digits_of raw) (digits_of-IsDigits raw) in
          let is = some-injective _ _ (rw (good, normalize_uz_phone) at e) in
          (
            (digits, sym is, twelve, code, h),
            subst (λ m. normalize_uz_phone m ≡ some m) is
                (normalize-canonical digits h twelve code),
          )
    ]
