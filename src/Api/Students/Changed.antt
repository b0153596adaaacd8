-- ===== src/Api/Students/Changed.antt =====
-- updateStudent of frontend/lib/api/students.ts: what it calls and returns in each case, by the answers.
use mentorio.Prelude.{
  String, ◌≡◌, refl, ap, ◌∙◌, inl, inr, false, Bool-cases, Option, none, some, Option-cases, [],
  ◌∷◌,
}
use mathlib.Core.Option.{map as map_option}
use mentorio.Prelude.Text.{Text, codes}
use mentorio.Http.{Url, json, RequestInit, HttpRequest, Response}
use mentorio.Json.{Json, Fields, str, obj, find_field}
use mentorio.Client.{Page, Call, Outcome, ok, throw, Error, await, ◌>>=◌, ◌>>◌, return}
use mentorio.Api.{
  patch, item, names_any, truthy_text, text_or_null, given, defined, or_else-none,
  find_field-defined, find_field-nothing,
}
use mentorio.Api.Rollback.{after_calls, Answers, Outcome-cases}
use mentorio.Api.Students.{
  ParentChange, UpdateStudentInput, user_url, student_url, student_user_patch,
  student_profile_patch, parent_patch, create_parent_call, create_primary_parent, call, save_parent,
  update_student,
}

-- No field of the account is given.
abbrev pub KeepsAccount : UpdateStudentInput → Type 0
KeepsAccount input =
    (input.first_name ≡ none)
    × (input.last_name ≡ none)
    × (input.phone ≡ none)
    × (input.gender ≡ none)
    × (input.date_of_birth ≡ none)

-- A PATCH to the account with the fields that are given.
pub record IsAccountChange (input : UpdateStudentInput) (c : Url × RequestInit) : Type 0 where
  pub url : c.0 ≡ user_url input.user_id
  pub method : c.1.method ≡ some (codes "PATCH")
  pub fields : Fields
  pub body : c.1.body ≡ some (json (obj fields))
  pub first_name : find_field "first_name" fields ≡ map_option str input.first_name
  pub last_name : find_field "last_name" fields ≡ map_option str input.last_name
  pub phone : find_field "phone" fields ≡ map_option str input.phone
  pub gender : find_field "gender" fields ≡ map_option str input.gender
  pub birth : find_field "date_of_birth" fields ≡ map_option text_or_null input.date_of_birth

-- A PATCH to the profile with the fields that are given.
pub record IsProfileChange (pid : Text) (input : UpdateStudentInput) (c : Url × RequestInit)
    : Type 0 where
  pub url : c.0 ≡ student_url pid
  pub method : c.1.method ≡ some (codes "PATCH")
  pub fields : Fields
  pub body : c.1.body ≡ some (json (obj fields))
  pub student_code : find_field "student_code" fields ≡ map_option str input.student_code
  pub status : find_field "status" fields ≡ map_option str input.status

-- The call for the parent: a change of the one that there is, or a new one.
abbrev pub parent_call : Text → ParentChange → Option Text → Url × RequestInit
parent_call pid parent none =
    create_parent_call parent.organization_id (some (str pid)) parent.name parent.phone
parent_call pid parent (some id) =
    (item "/api/v1/students/parents/" id "/", patch (parent_patch parent))

abbrev account_change : UpdateStudentInput → Url × RequestInit
account_change input = (user_url input.user_id, patch (student_user_patch input))

abbrev profile_change : Text → UpdateStudentInput → Url × RequestInit
profile_change pid input = (student_url pid, patch (student_profile_patch input))

given-map : {A : Type 0} (f : A → Json) (o : Option A) → given f o ≡ map_option f o
given-map f none = refl
given-map f (some v) = refl

account_change-IsAccountChange :
    (input : UpdateStudentInput) → IsAccountChange input (account_change input)
unfolding student_user_patch
account_change-IsAccountChange input = record {
  url = refl;
  method = refl;
  fields = defined (student_user_patch input);
  body = refl;
  first_name = simp (find_field-defined, find_field-nothing, or_else-none) (given-map str _);
  last_name = simp (find_field-defined, find_field-nothing, or_else-none) (given-map str _);
  phone = simp (find_field-defined, find_field-nothing, or_else-none) (given-map str _);
  gender = simp (find_field-defined, find_field-nothing, or_else-none) (given-map str _);
  birth = simp (find_field-defined, find_field-nothing, or_else-none) (given-map text_or_null _);
}

profile_change-IsProfileChange :
    (pid : Text) (input : UpdateStudentInput) → IsProfileChange pid input (profile_change pid input)
unfolding student_profile_patch
profile_change-IsProfileChange pid input = record {
  url = refl;
  method = refl;
  fields = defined (student_profile_patch input);
  body = refl;
  student_code = simp (find_field-defined, find_field-nothing, or_else-none) (given-map str _);
  status = simp (find_field-defined, find_field-nothing, or_else-none) (given-map str _);
}

given_five :
    (a b c d e : Option Text) (k l m n o : String)
    → names_any (
        (k, given str a)
        ∷ (l, given str b)
        ∷ (m, given str c)
        ∷ (n, given str d)
        ∷ (o, given text_or_null e)
        ∷ [])
      ≡ false
    → (a ≡ none) × (b ≡ none) × (c ≡ none) × (d ≡ none) × (e ≡ none)
given_five (some v) b c d e k l m n o h = cc
given_five none (some v) c d e k l m n o h = cc
given_five none none (some v) d e k l m n o h = cc
given_five none none none (some v) e k l m n o h = cc
given_five none none none none (some v) k l m n o h = cc
given_five none none none none none k l m n o h = (refl, refl, refl, refl, refl)

names_any-KeepsAccount :
    (input : UpdateStudentInput) → names_any (student_user_patch input) ≡ false → KeepsAccount input
unfolding student_user_patch
names_any-KeepsAccount input h =
    given_five input.first_name input.last_name input.phone input.gender input.date_of_birth
      "first_name" "last_name" "phone" "gender" "date_of_birth" h

none_named :
    (input : UpdateStudentInput) → KeepsAccount input → names_any (student_user_patch input) ≡ false
unfolding student_user_patch
none_named input (a, b, c, d, e) = rw (a, b, c, d, e) refl

module _ {W : Type 0} (send : HttpRequest → W → Option Response × W) (pid : Text)
    (input : UpdateStudentInput) where
  abbrev parent_change : ParentChange → Url × RequestInit
  parent_change parent = parent_call pid parent (truthy_text parent.existing_parent_id)

  -- The page behind the account: nothing is sent if it keeps its fields, and otherwise its change has
  -- succeeded.
  pub data Settled (p : Page W) : Page W → Type 0 where
    kept : KeepsAccount input → Settled p p
    account_changed :
        (c : Url × RequestInit) (v : Option Json)
        → ¬ KeepsAccount input
        → IsAccountChange input c
        → Answers send p [] c (ok v)
        → Settled p (after_calls send (c ∷ []) p)

  -- How the change ends, from the page `p`, by what the backend answers to each call.
  pub data Change (p : Page W) : Outcome (Option Json) × Page W → Type 0 where
    account_refused :
        (c : Url × RequestInit) (e : Error)
        → ¬ KeepsAccount input
        → IsAccountChange input c
        → Answers send p [] c (throw e)
        → Change p (throw e, after_calls send (c ∷ []) p)
    profile_refused :
        (q : Page W) (c : Url × RequestInit) (e : Error)
        → Settled p q
        → IsProfileChange pid input c
        → Answers send q [] c (throw e)
        → Change p (throw e, after_calls send (c ∷ []) q)
    changed :
        (q : Page W) (c : Url × RequestInit) (d : Option Json)
        → Settled p q
        → IsProfileChange pid input c
        → Answers send q [] c (ok d)
        → input.parent ≡ none
        → Change p (ok d, after_calls send (c ∷ []) q)
    parent_refused :
        (q : Page W) (c : Url × RequestInit) (d : Option Json) (parent : ParentChange) (e : Error)
        → Settled p q
        → IsProfileChange pid input c
        → Answers send q [] c (ok d)
        → input.parent ≡ some parent
        → Answers send q (c ∷ []) (parent_change parent) (throw e)
        → Change p (throw e, after_calls send (c ∷ parent_change parent ∷ []) q)
    parent_changed :
        (q : Page W) (c : Url × RequestInit) (d v : Option Json) (parent : ParentChange)
        → Settled p q
        → IsProfileChange pid input c
        → Answers send q [] c (ok d)
        → input.parent ≡ some parent
        → Answers send q (c ∷ []) (parent_change parent) (ok v)
        → Change p (ok d, after_calls send (c ∷ parent_change parent ∷ []) q)

  abbrev dropped : Outcome (Option Json) × Page W → Outcome (Unit {0}) × Page W
  dropped x = await {0, 0} x (λ _. return tt)

  save_parent-eq :
      (parent : ParentChange) (p : Page W)
      → save_parent send pid (some parent) p ≡ dropped (call send (parent_change parent) p)
  unfolding save_parent create_primary_parent
  save_parent-eq parent p = elim (Option-cases (truthy_text parent.existing_parent_id)) [
    | inl new ↦ rw (new, save_parent) refl
    | inr (id, old) ↦ rw (old, save_parent) refl
  ]

  abbrev answered : (x : Outcome (Option Json) × Page W) → Outcome (Option Json)
  answered x = x.0

  abbrev rest : Call W (Option Json)
  rest = call send (profile_change pid input) >>= λ d. save_parent send pid input.parent >> return d

  rest-Change : (p q : Page W) → Settled p q → Change p (rest q)
  unfolding await save_parent
  rest-Change p q settled =
      let c = profile_change pid input in
      let is_change = profile_change-IsProfileChange pid input in
      let q' = (call send c q).1 in
      elim (Outcome-cases (call send c q)) [
        | inr (e, lost) ↦ rw lost (profile_refused q c e settled is_change (ap answered lost))
        | inl (d, made) ↦ elim (Option-cases input.parent) [
          | inl alone ↦
              let nothing : save_parent send pid input.parent q' ≡ (ok tt, q') =
                ap (λ o. save_parent send pid o q') alone in
              rw (made, nothing) (changed q c d settled is_change (ap answered made) alone)
          | inr (parent, theirs) ↦
              let last = parent_change parent in
              let saved : save_parent send pid input.parent q' ≡ dropped (call send last q') =
                ap (λ o. save_parent send pid o q') theirs ∙ save_parent-eq parent q' in
              elim (Outcome-cases (call send last q')) [
                | inr (e, lost) ↦
                    rw (made, saved, lost)
                      (parent_refused q c d parent e settled is_change (ap answered made) theirs
                        (ap answered lost))
                | inl (v, done) ↦
                    rw (made, saved, done)
                      (parent_changed q c d v parent settled is_change (ap answered made) theirs
                        (ap answered done))
              ]
        ]
      ]

  -- A change of a student ends in one of these ways. If a field of the account is given, and only
  -- then, the account is changed first, with the fields that are given; then the profile, with those
  -- that are given; then the parent, if one is given: the one whose id is known is changed, and with no
  -- id a new one is made. The first call that fails ends it with that call's error and nothing further
  -- sent; otherwise the answer to the profile's change is returned.
  pub update_student-Change : (p : Page W) → Change p (update_student send pid input p)
  unfolding update_student await
  update_student-Change p = elim (Bool-cases (names_any (student_user_patch input))) [
    | inr none_given ↦
        rw (none_given, update_student)
          (rest-Change p p (kept (names_any-KeepsAccount input none_given)))
    | inl given_some ↦
        let c = account_change input in
        let is_change = account_change-IsAccountChange input in
        let touched : ¬ KeepsAccount input = λ keeps. cc (given_some, none_named input keeps) in
        elim (Outcome-cases (call send c p)) [
          | inr (e, lost) ↦
              rw (given_some, lost, update_student)
                (account_refused c e touched is_change (ap answered lost))
          | inl (d, made) ↦
              rw (given_some, made, update_student)
                (rest-Change p (call send c p).1
                  (account_changed c d touched is_change (ap answered made)))
        ]
  ]
