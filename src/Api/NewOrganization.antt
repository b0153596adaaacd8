-- ===== src/Api/NewOrganization.antt =====
-- frontend/lib/api/organizations.ts: a new organization, with the slug that is made from its name.
use mentorio.Prelude.{
  ℕ, Bool, false, not, ◌&&◌, ◌||◌, Option, some, [], ◌∷◌, ◌++◌, if◌then◌else◌, leb, ◌==◌, ◌≡◌, refl,
}
use mentorio.Prelude.Text.{Text, codes, is_digit}
use mentorio.Http.{HttpRequest, Response}
use mentorio.Json.{Json, str, Decimal}
use mentorio.Client.{Call, api_fetch}
use mentorio.Api.{post, at, Nullable}
use mentorio.Api.Organizations.{OrganizationPatch, to_body}

pub record OrganizationInput : Type 0 where
  pub name : Text
  pub email : Text
  pub city : Option Text
  pub country : Option Text
  pub status : Option Text
  pub subscription_plan : Option Nullable
  pub max_students : Option Decimal
  pub max_teachers : Option Decimal
  pub max_branches : Option Decimal

-- All fields given.
abbrev pub all_given : OrganizationInput → OrganizationPatch
all_given input = record {
  name = some input.name;
  email = some input.email;
  city = input.city;
  country = input.country;
  status = input.status;
  subscription_plan = input.subscription_plan;
  max_students = input.max_students;
  max_teachers = input.max_teachers;
  max_branches = input.max_branches;
}

-- The class `[a-z0-9]`.
abbrev pub is_slug_char : ℕ → Bool
is_slug_char c = (leb b'a' c && leb c b'z') || is_digit c

-- A dash for each run of other characters; `inside` says that one has been written for this run.
unfoldable pub dash_runs : Bool → Text → Text
dash_runs inside [] = []
dash_runs inside (c ∷ s) =
    let rest = dash_runs (not (is_slug_char c)) s in
    if is_slug_char c then c ∷ rest else if inside then rest else b'-' ∷ rest

unfoldable pub trim_first : Text → Text
trim_first [] = []
trim_first (c ∷ s) = if c == b'-' then s else c ∷ s

unfoldable pub trim_last : Text → Text
trim_last [] = []
trim_last (c ∷ []) = if c == b'-' then [] else c ∷ []
trim_last (c ∷ d ∷ s) = c ∷ trim_last (d ∷ s)

-- The name is given in lower case; `stamp` is the time of the clock to the base 36.
unfoldable pub slug_of : Text → Text → Text
slug_of lower_name stamp = trim_last (trim_first (dash_runs false lower_name)) ++ b'-' ∷ stamp

slugs :
    (slug_of (codes "ta'lim  markazi 2!") (codes "k1") ≡ codes "ta-lim-markazi-2-k1")
    × (slug_of (codes "!!") (codes "k1") ≡ codes "-k1")
unfolding slug_of trim_last trim_first dash_runs
slugs = (refl, refl)

module _ {W : Type 0} (send : HttpRequest → W → Option Response × W) where
  -- `to_lower_case` is the language's, `stamp` the clock's.
  unfoldable pub create_organization :
      (Text → Text) → Text → OrganizationInput → Call W (Option Json)
  create_organization to_lower_case stamp input = api_fetch send (at "/api/v1/organizations/") (
      post (
        to_body (all_given input)
        ++ ("slug", some (str (slug_of (to_lower_case input.name) stamp))) ∷ []))
