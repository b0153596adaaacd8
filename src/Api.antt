-- ===== src/Api.antt =====
-- What the modules of frontend/lib/api share in building requests: filters of a query, JSON bodies
-- with keys left out, and the paths of one item. An identifier is put into a path as it is.
pub mod Administrators
pub mod Attendance
pub mod Auth
pub mod Branches
pub mod Courses
pub mod Exams
pub mod Expenses
pub mod Filters
pub mod Gateways
pub mod GroupBilling
pub mod Groups
pub mod Homework
pub mod Invoices
pub mod LessonList
pub mod Lessons
pub mod Login
pub mod NewOrganization
pub mod Notifications
pub mod Organizations
pub mod Patches
pub mod Payroll
pub mod Plans
pub mod PlatformSettings
pub mod PlatformBilling
pub mod Rollback
pub mod Settings
pub mod StudentLists
pub mod Summaries
pub mod Students
pub mod TeacherLists
pub mod Teachers
pub mod Users
mod AccountTests
mod LessonTests
use mentorio.Prelude.{
  ℕ, String, Option, none, some, List, [], ◌∷◌, ◌++◌, ◌≡◌, refl, inl, inr, str_eq, if◌then◌else◌,
  Bool-cases, arith, eq_iff, Bool, true, false,
}
use mentorio.Prelude.Int.{pos}
use mentorio.Prelude.Text.{Text, codes}
use mentorio.Prelude.Dict.{Dict, get, put, get-put}
use mentorio.Http.{Query, Url, Body, json, form, RequestInit, no_init}
use mentorio.Json.{
  Json, null, str, num, bool, arr, obj, items, whole, Fields, end, field, find_field, Decimal,
}

-- A text on which a test passes: one that is given and not empty.
abbrev pub truthy_text : Option Text → Option Text
truthy_text (some (c ∷ s)) = some (c ∷ s)
truthy_text _ = none

-- `a ?? b`
abbrev pub or_else {ℓ} : {A : Type ℓ} → Option A → Option A → Option A
or_else none b = b
or_else (some a) b = some a

-- `if (value) query.set(key, value)`
unfoldable pub set_if : String → Option Text → Query → Query
set_if key (some (c ∷ s)) query = put key (c ∷ s) query
set_if key _ query = query

-- `if (value !== undefined) query.set(key, String(value))`
unfoldable pub set_bool : String → Option Bool → Query → Query
set_bool key none query = query
set_bool key (some true) query = put key (codes "true") query
set_bool key (some false) query = put key (codes "false") query

-- `value || null`
abbrev pub or_null : Option Text → Json
or_null (some (c ∷ s)) = str (c ∷ s)
or_null _ = null

-- `text || null`
abbrev pub text_or_null : Text → Json
text_or_null text = or_null (some text)

-- `value ?? default`
abbrev pub or_default {ℓ} : {A : Type ℓ} → A → Option A → A
or_default default none = default
or_default default (some v) = v

-- A text or null.
abbrev pub Nullable : Type 0
Nullable = Option Text

abbrev pub nullable : Nullable → Json
nullable none = null
nullable (some text) = str text

-- A list of texts as JSON.
abbrev pub texts : List Text → List Json
texts [] = []
texts (t ∷ ts) = str t ∷ texts ts

abbrev pub arr_texts : List Text → Json
arr_texts ts = arr (items (texts ts))

abbrev pub whole_number : ℕ → Decimal
whole_number n = record { units = pos n; scale = 0 }

-- `value !== undefined`: the JSON of a value that is given.
abbrev pub given {ℓ} : {A : Type ℓ} → (A → Json) → Option A → Option Json
given f none = none
given f (some v) = some (f v)

-- The entries of an object that `JSON.stringify` writes: those that are not undefined.
unfoldable pub defined : List (String × Option Json) → Fields
defined [] = end
defined ((k, none) ∷ more) = defined more
defined ((k, some v) ∷ more) = field k v (defined more)

-- `Object.keys(patch).length > 0`
abbrev pub names_any : List (String × Option Json) → Bool
names_any [] = false
names_any ((k, none) ∷ more) = names_any more
names_any ((k, some v) ∷ more) = true

-- `JSON.stringify({…})`
abbrev pub stringify : List (String × Option Json) → Option Body
stringify entries = some (json (obj (defined entries)))

abbrev pub send_body : String → Option Body → RequestInit
send_body method body = record { method = some (codes method); body = body; headers = [] }

abbrev pub post : List (String × Option Json) → RequestInit
post entries = send_body "POST" (stringify entries)

abbrev pub patch : List (String × Option Json) → RequestInit
patch entries = send_body "PATCH" (stringify entries)

abbrev pub post_nothing : RequestInit
post_nothing = send_body "POST" none

abbrev pub delete : RequestInit
delete = send_body "DELETE" none

abbrev pub at : String → Url
at path = record { path = codes path; query = none }

-- `${before}${id}${behind}`
abbrev pub item : String → Text → String → Url
item before id behind = record { path = codes before ++ id ++ codes behind; query = none }

-- `new URLSearchParams()`
abbrev pub no_filter : Query
no_filter = []

pub get-set_if :
    (k j : String) (v : Option Text) (q : Query)
    → get j (set_if k v q) ≡ (if str_eq k j then or_else (truthy_text v) (get j q) else get j q)
unfolding set_if
get-set_if k j none q = ground arith
get-set_if k j (some []) q = ground arith
get-set_if k j (some (c ∷ s)) q = get-put k j (c ∷ s) q

-- An entry is found behind others with another key, and one that is left out is not found.
pub find_field-defined :
    (k j : String) (v : Option Json) (more : List (String × Option Json))
    → find_field j (defined ((k, v) ∷ more)) ≡ (
        if str_eq k j then or_else v (find_field j (defined more)) else find_field j (defined more))
unfolding defined
find_field-defined k j none more = ground arith
find_field-defined k j (some v) more = refl

pub or_else-none {ℓ} : {A : Type ℓ} → (a : Option A) → or_else a none ≡ a
or_else-none none = refl
or_else-none (some a) = refl

pub get-start :
    (k j : String) (v : Text) (q : Query)
    → get k ((j, v) ∷ q) ≡ (if str_eq j k then some v else get k q)
unfolding get
get-start k j v q = refl

pub get-empty : (k : String) → get k no_filter ≡ none
unfolding get
get-empty k = refl

pub find_field-nothing : (j : String) → find_field j (defined []) ≡ none
unfolding defined
find_field-nothing j = refl
