-- ===== src/Screens/AccountTests.antt =====
-- The forms of the accounts and of the platform's invoices at concrete inputs.
use mathlib.Core.Path.{subst}
use mathlib.Core.Option.{some-injective}
use mentorio.Prelude.{sym, true, false, none, some, [], ◌∷◌, ◌≡◌, refl, All, map}
use mentorio.Prelude.Text.{Text, codes}
use mentorio.Prelude.Dict.{get}
use mentorio.Api.Students.{is_space}
use mentorio.Access.{Request, next, proxy, has, has_session, home_of, role_home}
use mentorio.Access.Portals.{IsInherited}
use mentorio.Client.{Outcome, ok}
use mentorio.Screens.Numbers.{trim}
use mentorio.Screens.Accounts.{
  StoredUser, Browser, handle_login, after_login, enter, seed_locale_cookie_if_unset, has_locale,
  is_locale, set_user,
}
use mentorio.Screens.Accounts.Entered.{HasPlainRole, handle_login-proxy}
use mentorio.Screens.Accounts.Passwords.{ChangeCall, no_change_errors, handle_change}
use mentorio.Screens.Accounts.Forgotten.{
  ResetStep, ResetPage, new_reset_page, ConfirmCall, handle_confirm,
}
use mentorio.Screens.Accounts.Changed.{IsSafeChange, handle_change-IsSafeChange}
use mentorio.Screens.Accounts.Confirmed.{Confirmed, handle_confirm-Confirmed}
use mentorio.Screens.Csv.RoundTrip.{read_csv}
use mentorio.Screens.PlatformPayments.{
  Invoice, export_row, filtered_invoices, handle_export_csv, Organization, InvoiceForm, InvoiceCall,
  find_organization, change_organization,
}
use mentorio.Screens.PlatformPayments.Exported.{handle_export_csv-read_csv}
use mentorio.Screens.PlatformPayments.Prefilled.{
  CreatesFree, change_organization-handle_create_invoice,
}

abbrev teacher_user : StoredUser
teacher_user = record {
  id = "user-1";
  role = some "teacher";
  language = "ru";
  must_change_password = false;
}

abbrev new_browser : Browser
new_browser = record { user = none; cookies = []; visited = []; refreshes = 0 }

abbrev lets_in : Text → Text → Outcome StoredUser
lets_in login password = ok teacher_user

abbrev teacher_request : Request
teacher_request = record {
  pathname = codes "/teacher";
  cookies = ("access_token", "a") ∷ ("user_role", "teacher") ∷ [];
}

goes_to_teacher :
    (handle_login lets_in (codes " dilnoza ") (codes "secret") new_browser).browser.visited
    ≡ codes "/teacher" ∷ []
unfolding handle_login after_login enter seed_locale_cookie_if_unset has_locale is_locale set_user
    home_of role_home get trim is_space
goes_to_teacher = refl

stores_teacher :
    (handle_login lets_in (codes " dilnoza ") (codes "secret") new_browser).browser.user
    ≡ some teacher_user
unfolding handle_login after_login enter seed_locale_cookie_if_unset has_locale is_locale set_user
    home_of role_home get trim is_space
stores_teacher = refl

request_has_session : has_session teacher_request ≡ true
unfolding has_session has get
request_has_session = refl

request_has_role : get "user_role" teacher_request.cookies ≡ some "teacher"
unfolding get
request_has_role = refl

teacher_role : HasPlainRole teacher_user
teacher_role role found taken =
    absurd (plain (subst IsInherited (sym (some-injective _ _ found)) taken))
  where
    plain : ¬ IsInherited "teacher"
    plain e = cc

handle_login-proxy_example : proxy teacher_request ≡ next
handle_login-proxy_example =
    handle_login-proxy lets_in (codes " dilnoza ") (codes "secret") (codes "/teacher") new_browser
      teacher_user teacher_request teacher_role goes_to_teacher stores_teacher refl
      request_has_session request_has_role

abbrev signed_in : Browser
signed_in = record new_browser { user = some teacher_user }

abbrev changes : ChangeCall → Outcome (Unit {0})
changes c = ok tt

handle_change-IsSafeChange_example :
    All
      (IsSafeChange signed_in (codes "new"))
      (handle_change changes no_change_errors
        (codes "old")
        (codes "new")
        (codes "new")
        signed_in).calls
handle_change-IsSafeChange_example =
    handle_change-IsSafeChange changes no_change_errors (codes "old") (codes "new") (codes "new")
      signed_in

abbrev confirms : ConfirmCall → Outcome (Unit {0})
confirms c = ok tt

abbrev at_verify : ResetPage
at_verify = record new_reset_page {
  step = ResetStep.verify;
  reset = some (codes "token");
  code = codes "123456";
  password = codes "new";
  confirm = codes "new";
}

handle_confirm-Confirmed_example :
    Confirmed confirms at_verify
      (handle_confirm confirms at_verify).0
      (handle_confirm confirms at_verify).1
handle_confirm-Confirmed_example = handle_confirm-Confirmed confirms at_verify

abbrev starts : Text → Outcome Text
starts login_id = ok (codes "token")

abbrev named_page : ResetPage
named_page = record new_reset_page { login_id = codes "dilnoza" }

abbrev odd_invoice : Invoice
odd_invoice = record {
  invoice_number = codes "INV-1";
  organization_name = codes "\"Star\", Tashkent";
  plan_name = codes "Plus";
  amount = codes "99.00";
  balance = codes "0.00";
  status = codes "paid";
  due_date = codes "2025-03-01";
  id = codes "invoice-1";
}

abbrev unchanged : Text → Text
unchanged s = s

handle_export_csv-read_csv_example :
    read_csv
      (handle_export_csv unchanged [] (codes "Invoice" ∷ codes "Center" ∷ []) (odd_invoice ∷ [])).0
    ≡ some (
        (codes "Invoice" ∷ codes "Center" ∷ [])
        ∷ map export_row (filtered_invoices unchanged [] (odd_invoice ∷ [])))
handle_export_csv-read_csv_example =
    handle_export_csv-read_csv unchanged [] (codes "Invoice") (codes "Center" ∷ [])
      (odd_invoice ∷ [])

abbrev blank_form : InvoiceForm
blank_form = record {
  organization = [];
  subscription_plan = [];
  amount = [];
  period_start = codes "2025-01-31";
  period_end = codes "2025-03-03";
  due_date = codes "2025-02-15";
  notes = [];
}

abbrev star : Organization
star = record { id = codes "org-1"; subscription_plan = some (codes "plan-1") }

star_found : find_organization (star ∷ []) (codes "org-1") ≡ some star
unfolding find_organization
star_found = refl

abbrev accepts : InvoiceCall → Outcome (Unit {0})
accepts c = ok tt

change_organization-handle_create_invoice_example :
    CreatesFree accepts blank_form
      (codes "plan-1")
      (change_organization (star ∷ []) (codes "org-1") blank_form)
change_organization-handle_create_invoice_example =
    change_organization-handle_create_invoice accepts blank_form blank_form (star ∷ []) star b'o'
      b'p' (codes "rg-1") (codes "lan-1") star_found refl refl refl
