-- ===== src/Phone/Tests.antt =====
-- Some numbers as they are typed, and the theorem about the form at one of them.
use mentorio.Prelude.{◌≡◌, refl, none, some}
use mentorio.Prelude.Text.{codes}
use mentorio.Phone.{normalize_uz_phone}
use mentorio.Phone.Canonical.{IsCanonical, normalize_uz_phone-IsCanonical}

typed :
    (normalize_uz_phone (codes "90 123-45-67") ≡ some (codes "+998901234567"))
    × (normalize_uz_phone (codes "+998 (90) 123 45 67") ≡ some (codes "+998901234567"))
    × (normalize_uz_phone (codes "+7 901 234 56 78") ≡ none)
unfolding normalize_uz_phone
typed = (refl, refl, refl)

normalize_uz_phone-IsCanonical_example :
    IsCanonical (codes "+998901234567")
    × (normalize_uz_phone (codes "+998901234567") ≡ some (codes "+998901234567"))
normalize_uz_phone-IsCanonical_example =
    normalize_uz_phone-IsCanonical (codes "90 123-45-67") (codes "+998901234567") typed.0
