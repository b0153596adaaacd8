-- ===== src/Queries/Tests.antt =====
-- A query client that keeps the names that it serves, and the theorems about the hooks with it.
use mentorio.Prelude.{
  Bool, true, false, ◌&&◌, ◌||◌, not, String, Option, none, some, [], ◌∷◌, ◌++◌, ◌≡◌, refl, arith,
}
use mentorio.Prelude.Text.{Text, codes, same, same_refl}
use mentorio.Http.{HttpRequest, Response}
use mentorio.Json.{Json, str}
use mentorio.Queries.{Key, name}
use mentorio.Api.Students.{UpdateStudentInput}
use mentorio.Queries.Students.{use_update_student_mutation}
use mentorio.Queries.Users.{use_user_query}
use mentorio.Queries.Coherence.Kept.{use_update_student_mutation-use_user_query}
use mentorio.Queries.Coherence.Client.{QueryClient, run}

abbrev part_text : Json → Text
part_text (str text) = text
part_text _ = []

abbrev first_text : Key → Text
first_text [] = []
first_text (part ∷ rest) = part_text part

abbrev Served : Type 0
Served = Text → Bool

abbrev drop_names : Key → Served → Served
drop_names [] c text = false
drop_names (part ∷ rest) c text = c text && not (same text (first_text (part ∷ rest)))

dropped :
    (prefix rest : Key) (c : Served) → drop_names prefix c (first_text (prefix ++ rest)) ≡ false
dropped [] rest c = refl
dropped (part ∷ more) rest c = rw (same_refl (part_text part)) (ground arith)

dropped_more :
    (key prefix : Key) (c : Served)
    → c (first_text key) ≡ false
    → drop_names prefix c (first_text key) ≡ false
dropped_more key [] c h = refl
dropped_more key (part ∷ rest) c h = rw h refl

dropped_other :
    (n m : String) (rest more : Key) (c : Served)
    → same (codes m) (codes n) ≡ false
    → drop_names (name n ∷ rest) c (codes m) ≡ c (codes m)
dropped_other n m rest more c h = rw h (ground arith)

abbrev client : QueryClient
client = record {
  Cache = Served;
  serves = λ key c. c (first_text key);
  invalidate_queries = drop_names;
  set_data = λ key value c text. c text || same text (first_text key);
  serves-invalidate_queries = dropped;
  invalidate_queries_more = dropped_more;
  invalidate_queries_other = dropped_other;
}

-- A server that never answers.
abbrev silent : HttpRequest → Unit {0} → Option Response × Unit {0}
silent r w = (none, w)

abbrev full : Served
full text = true

abbrev renamed : UpdateStudentInput
renamed = record {
  user_id = codes "user-1";
  first_name = some (codes "Aziza");
  last_name = none;
  phone = none;
  gender = none;
  date_of_birth = none;
  student_code = none;
  status = none;
  parent = none;
}

use_update_student_mutation-use_user_query_example :
    client.serves
      (use_user_query silent (some (codes "user-1"))).query_key
      (run client ((use_update_student_mutation silent (codes "p-1") renamed).on_success none) full)
    ≡ client.serves (use_user_query silent (some (codes "user-1"))).query_key full
use_update_student_mutation-use_user_query_example =
    use_update_student_mutation-use_user_query silent client (codes "p-1") renamed none
      (some (codes "user-1")) full
