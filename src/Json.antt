-- ===== src/Json.antt =====
-- JSON values as the API client of frontend/lib/api sends and reads them.
use mentorio.Prelude.{
  ℕ, String, Bool, true, false, not, Option, none, some, List, [], ◌∷◌, if◌then◌else◌, str_eq, ◌==◌,
}
use mentorio.Prelude.Int.{ℤ, pos, pos_part, neg_part}
use mentorio.Prelude.Text.{Text}

-- The number `units` / 10^`scale`.
pub record Decimal : Type 0 where
  pub units : ℤ
  pub scale : ℕ

mutual
  pub data Json : Type 0 where
    null : Json
    bool : Bool → Json
    num : Decimal → Json
    str : Text → Json
    arr : Items → Json
    obj : Fields → Json

  pub data Items : Type 0 where
    nil : Items
    cons : Json → Items → Items

  pub data Fields : Type 0 where
    end : Fields
    field : String → Json → Fields → Fields

-- A whole number.
abbrev pub whole : ℕ → Json
whole n = num (record { units = pos n; scale = 0 })

abbrev pub elems : Items → List Json
elems nil = []
elems (cons v vs) = v ∷ elems vs

abbrev pub items : List Json → Items
items [] = nil
items (v ∷ vs) = cons v (items vs)

abbrev pub find_field : String → Fields → Option Json
find_field k end = none
find_field k (field j v fs) = if str_eq j k then some v else find_field k fs

-- `v.key`, `none` being undefined: also on a value that is no object.
abbrev pub prop : String → Json → Option Json
prop k (obj fs) = find_field k fs
prop k _ = none

-- `v?.key`
abbrev pub opt_prop : String → Option Json → Option Json
opt_prop k none = none
opt_prop k (some v) = prop k v

abbrev pub is_zero : Decimal → Bool
is_zero d = pos_part d.units == neg_part d.units

-- Whether a test on the value passes.
abbrev pub truthy : Json → Bool
truthy null = false
truthy (bool b) = b
truthy (num d) = not (is_zero d)
truthy (str []) = false
truthy (str (_ ∷ _)) = true
truthy (arr _) = true
truthy (obj _) = true

abbrev pub opt_truthy : Option Json → Bool
opt_truthy none = false
opt_truthy (some v) = truthy v
