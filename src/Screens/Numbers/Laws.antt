-- ===== src/Screens/Numbers/Laws.antt =====
-- What `sanitizeNumeric` leaves of a text, and what `Number` reads in that.
use mentorio.Prelude.{
  ℕ, ◌≡◌, refl, ap, Bool, true, false, [], ◌∷◌, ◌++◌, if◌then◌else◌, ◌==◌, ==_iff, arith,
}
use mentorio.Prelude.Text.{Text, is_digit, IsDigits}
use mentorio.Screens.Numbers.{digits_and_dots, without_dots, one_dot, sanitize_numeric}

-- Digits, and at most one dot among them.
pub data IsNumeric : Text → Type 0 where
  whole : (s : Text) → IsDigits s → IsNumeric s
  pointed : (s fraction : Text) → IsDigits s → IsDigits fraction → IsNumeric (s ++ b'.' ∷ fraction)

-- The digits of a text, in their order.
abbrev pub digits : Text → Text
digits [] = []
digits (c ∷ s) = let rest = digits s in if is_digit c then c ∷ rest else rest

without_dots-digits_and_dots : (s : Text) → without_dots (digits_and_dots s) ≡ digits s
unfolding without_dots digits_and_dots
without_dots-digits_and_dots [] = refl
without_dots-digits_and_dots (c ∷ s) = ground (arith, without_dots-digits_and_dots s)

digits-IsDigits : (s : Text) → IsDigits (digits s)
digits-IsDigits [] = tt
digits-IsDigits (c ∷ s) = ground (arith, digits-IsDigits s)

digits_fixed : (s : Text) → IsDigits s → digits s ≡ s
digits_fixed [] h = refl
digits_fixed (c ∷ s) h = ground (arith, digits_fixed s)

IsNumeric-cons : (c : ℕ) (s : Text) → is_digit c ≡ true → IsNumeric s → IsNumeric (c ∷ s)
IsNumeric-cons c _ d (whole s h) = whole (c ∷ s) (d, h)
IsNumeric-cons c _ d (pointed s fraction h k) = pointed (c ∷ s) fraction (d, h) k

sanitize_numeric-cons :
    (c : ℕ) (s : Text)
    → sanitize_numeric (c ∷ s) ≡ (
        if is_digit c
        then c ∷ sanitize_numeric s
        else if c == b'.'
        then c ∷ digits s
        else sanitize_numeric s)
unfolding sanitize_numeric digits_and_dots one_dot
sanitize_numeric-cons c s = ground (arith, without_dots-digits_and_dots s)

IsNumeric-dot : (c : ℕ) (s : Text) → c ≡ b'.' → IsNumeric (c ∷ digits s)
IsNumeric-dot c s e = rw e (pointed [] (digits s) tt (digits-IsDigits s))

IsNumeric-if :
    (b : Bool) (s t : Text)
    → (b ≡ true → IsNumeric s)
    → (b ≡ false → IsNumeric t)
    → IsNumeric (if b then s else t)
IsNumeric-if true s t f g = f refl
IsNumeric-if false s t f g = g refl

sanitize_numeric-forms : (raw : Text) → IsNumeric (sanitize_numeric raw)
unfolding sanitize_numeric digits_and_dots one_dot
sanitize_numeric-forms [] = whole [] tt
sanitize_numeric-forms (c ∷ s) =
    let rest = sanitize_numeric-forms s in
    rw (sanitize_numeric-cons c s) (
      IsNumeric-if (is_digit c) _ _ (λ d. IsNumeric-cons c _ d rest)
        (λ _.
          IsNumeric-if (c == b'.') _ _ (λ e. IsNumeric-dot c s ((==_iff c b'.').0 e)) (λ _. rest)))

digits-sanitize_numeric : (raw : Text) → digits (sanitize_numeric raw) ≡ digits raw
unfolding sanitize_numeric digits_and_dots one_dot
digits-sanitize_numeric [] = refl
digits-sanitize_numeric (c ∷ s) =
    rw (sanitize_numeric-cons c s)
      (ground (arith, digits-sanitize_numeric s, digits_fixed (digits s) (digits-IsDigits s)))

sanitize_numeric-whole : (s : Text) → IsDigits s → sanitize_numeric s ≡ s
unfolding sanitize_numeric digits_and_dots one_dot
sanitize_numeric-whole [] h = refl
sanitize_numeric-whole (c ∷ s) (d, h) =
    rw (sanitize_numeric-cons c s) (ground (arith, sanitize_numeric-whole s h))

sanitize_numeric-pointed :
    (s fraction : Text)
    → IsDigits s
    → IsDigits fraction
    → sanitize_numeric (s ++ b'.' ∷ fraction) ≡ s ++ b'.' ∷ fraction
sanitize_numeric-pointed [] fraction h k =
    rw (sanitize_numeric-cons b'.' fraction) (ap (λ t. b'.' ∷ t) (digits_fixed fraction k))
sanitize_numeric-pointed (c ∷ s) fraction (d, h) k =
    rw (sanitize_numeric-cons c (s ++ b'.' ∷ fraction))
      (ground (arith, sanitize_numeric-pointed s fraction h k))

sanitize_numeric-fixed : {s : Text} → IsNumeric s → sanitize_numeric s ≡ s
sanitize_numeric-fixed (whole s h) = sanitize_numeric-whole s h
sanitize_numeric-fixed (pointed s fraction h k) = sanitize_numeric-pointed s fraction h k

-- Whatever is typed or pasted, `sanitizeNumeric` leaves digits with at most one dot among them, and
-- all the digits of the text in their order; a second pass changes nothing.
pub sanitize_numeric-IsNumeric :
    (raw : Text)
    → IsNumeric (sanitize_numeric raw)
      × (digits (sanitize_numeric raw) ≡ digits raw)
      × (sanitize_numeric (sanitize_numeric raw) ≡ sanitize_numeric raw)
sanitize_numeric-IsNumeric raw =
    let numeric = sanitize_numeric-forms raw in
    (numeric, digits-sanitize_numeric raw, sanitize_numeric-fixed numeric)
