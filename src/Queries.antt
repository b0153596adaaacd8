-- ===== src/Queries.antt =====
-- The hooks of frontend/lib/queries, which put the API calls into the cache of TanStack Query: what
-- each hands to `useQuery` and `useMutation`. A key is a JavaScript array of JSON values.
pub mod Administrators
pub mod Attendance
pub mod Billing
pub mod Branches
pub mod Coherence
pub mod Courses
pub mod Exams
pub mod Expenses
pub mod Gateways
pub mod Groups
pub mod Homework
pub mod Invoices
pub mod Lessons
pub mod Notifications
pub mod Organizations
pub mod Payroll
pub mod Platform
pub mod Sessions
pub mod Settings
pub mod Students
pub mod Summaries
pub mod Teachers
pub mod Users
mod Tests
use mentorio.Prelude.{ℕ, Bool, true, false, Option, none, some, List, [], ◌∷◌, String, map}
use mentorio.Prelude.Text.{Text, codes}
use mentorio.Json.{Json, null, str, whole}
use mentorio.Client.{Call}
use mentorio.Api.{given}

abbrev pub Key : Type 0
Key = List Json

abbrev pub name : String → Json
name text = str (codes text)

-- An identifier that may be null.
abbrev pub nullable_id : Option Text → Json
nullable_id none = null
nullable_id (some id) = str id

-- `id as string` put into a path.
abbrev pub id_or_null : Option Text → Text
id_or_null none = codes "null"
id_or_null (some id) = id

-- `!!text`
abbrev pub is_text : Text → Bool
is_text [] = false
is_text (c ∷ s) = true

abbrev pub is_given : Option Text → Bool
is_given none = false
is_given (some text) = is_text text

-- The page and its size among a query's options.
abbrev pub paged : Option ℕ → Option ℕ → List (String × Option Json)
paged page page_size = ("page", given whole page) ∷ ("pageSize", given whole page_size) ∷ []

-- What a hook hands to `useQuery`; the stale time is in milliseconds.
pub record QueryOptions (W A : Type 0) : Type 0 where
  pub query_key : Key
  pub query_fn : Call W A
  pub enabled : Bool
  pub keep_previous : Bool
  pub stale_time : Option ℕ

-- A call on the query client.
pub data Effect : Type 0 where
  invalidate : Key → Effect
  set_query_data : Key → Option Json → Effect

-- What a hook hands to `useMutation`, for given variables.
pub record MutationOptions (W A : Type 0) : Type 0 where
  pub mutation_fn : Call W A
  pub on_success : A → List Effect

-- `invalidateQueries({ queryKey: [name] })`, for each name.
abbrev pub invalidated : List String → List Effect
invalidated [] = []
invalidated (text ∷ more) = invalidate (name text ∷ []) ∷ invalidated more
