-- ===== src/Screens/PlatformPayments.antt =====
-- The invoices of the platform, frontend/app/super-admin/payments/page.tsx. Dates are those of a clock
-- at or east of Greenwich with no change of its offset, where the parts that the code reads in local
-- time and writes in universal time are the same.
pub mod Prefilled
pub mod Recorded
pub mod Exported
use mentorio.Prelude.{
  ℕ, ◌+◌, Bool, true, false, not, ◌&&◌, ◌||◌, Option, none, some, List, [], ◌∷◌, ◌++◌,
  if◌then◌else◌, any, map,
}
use mentorio.Prelude.Int.{pos, ◌+ℤ◌}
use mentorio.Prelude.Text.{Text, codes, same, starts_with}
use mentorio.Json.{Decimal, is_zero}
use mentorio.Client.{Error, Outcome, ok, throw}
use mentorio.Dates.{Date, new_date, set_date, get_full_year, get_month, get_date}
use mentorio.Dates.Iso.{parse_local_date, to_local_iso_date}
use mentorio.Screens.{key, Notice, success, error, message_or}
use mentorio.Screens.Numbers.{number_value}
use mentorio.Screens.Csv.{csv_text}

pub data BillingCycle : Type 0 where
  monthly annual : BillingCycle

-- `setFullYear` and `setMonth`, which carry a day that the month does not have into the next.
unfoldable pub next_cycle : BillingCycle → Date → Date
next_cycle annual d = new_date (get_full_year d + 1) (pos (get_month d)) (get_date d)
next_cycle monthly d = new_date (get_full_year d) (pos (get_month d + 1)) (get_date d)

-- `none`: the text is no date, and the code throws.
unfoldable pub add_billing_cycle : Text → BillingCycle → Option Text
add_billing_cycle date_str cycle = elim (parse_local_date date_str) [
  | none ↦ none
  | some d ↦ some (to_local_iso_date (next_cycle cycle d))
]

unfoldable pub add_days : Text → ℕ → Option Text
add_days date_str days = elim (parse_local_date date_str) [
  | none ↦ none
  | some d ↦ some (to_local_iso_date (set_date d (pos (get_date d) +ℤ pos days)))
]

pub record InvoiceForm : Type 0 where
  pub organization : Text
  pub subscription_plan : Text
  pub amount : Text
  pub period_start : Text
  pub period_end : Text
  pub due_date : Text
  pub notes : Text

-- Plans and centers, with the fields that the page reads.
pub record Plan : Type 0 where
  pub id : Text
  pub price : Text
  pub billing_cycle : BillingCycle

pub record Organization : Type 0 where
  pub id : Text
  pub subscription_plan : Option Text

unfoldable pub find_plan : List Plan → Text → Option Plan
find_plan [] id = none
find_plan (p ∷ ps) id = if same p.id id then some p else find_plan ps id

unfoldable pub find_organization : List Organization → Text → Option Organization
find_organization [] id = none
find_organization (o ∷ os) id = if same o.id id then some o else find_organization os id

abbrev pub with_period : InvoiceForm → Text → Option Text → Option InvoiceForm
with_period form price none = none
with_period form price (some period_end) =
    some (record form { amount = price; period_end = period_end })

abbrev pub prefilled : InvoiceForm → Option Plan → Option InvoiceForm
prefilled form none = some form
prefilled form (some plan) =
    with_period form plan.price (add_billing_cycle form.period_start plan.billing_cycle)

-- `handleOrgOrPlanChange("subscriptionPlan", value)`; `none`: it throws.
unfoldable pub change_plan : List Plan → Text → InvoiceForm → Option InvoiceForm
change_plan plans value form =
    prefilled (record form { subscription_plan = value }) (find_plan plans value)

abbrev pub or_empty : Option Text → Text
or_empty none = []
or_empty (some plan) = plan

abbrev pub default_plan : Option Organization → Text
default_plan none = []
default_plan (some o) = or_empty o.subscription_plan

abbrev pub or_plan : Text → Text → Text
or_plan [] default = default
or_plan (c ∷ s) default = c ∷ s

-- `handleOrgOrPlanChange("organization", value)`: a plan that is chosen already stays.
unfoldable pub change_organization : List Organization → Text → InvoiceForm → InvoiceForm
change_organization organizations value form = record form {
  organization = value;
  subscription_plan =
      or_plan form.subscription_plan (default_plan (find_organization organizations value));
}

-- The variables of `createInvoiceMutation.mutateAsync`.
pub record InvoiceCall : Type 0 where
  pub organization : Text
  pub subscription_plan : Text
  pub amount : Decimal
  pub period_start : Text
  pub period_end : Text
  pub due_date : Text
  pub notes : Option Text

abbrev pub zero_amount : Decimal
zero_amount = record { units = pos 0; scale = 0 }

-- `Number(text) || 0`
abbrev pub or_zero : Option Decimal → Decimal
or_zero none = zero_amount
or_zero (some d) = if is_zero d then zero_amount else d

abbrev pub or_undefined : Text → Option Text
or_undefined [] = none
or_undefined (c ∷ s) = some (c ∷ s)

unfoldable pub invoice_call : InvoiceForm → InvoiceCall
invoice_call form = record {
  organization = form.organization;
  subscription_plan = form.subscription_plan;
  amount = or_zero (number_value form.amount);
  period_start = form.period_start;
  period_end = form.period_end;
  due_date = form.due_date;
  notes = or_undefined form.notes;
}

pub record InvoicePage : Type 0 where
  pub show_form : Bool
  pub form : InvoiceForm

pub record Created : Type 0 where
  pub calls : List InvoiceCall
  pub notice : Notice
  pub page : InvoicePage

abbrev pub is_blank : Text → Bool
is_blank [] = true
is_blank (c ∷ s) = false

abbrev pub after_create : InvoiceForm → InvoicePage → Outcome (Unit {0}) → Notice × InvoicePage
after_create empty_form page (ok _) =
    (success (key "invoiceCreatedToast"), record { show_form = false; form = empty_form })
after_create empty_form page (throw e) = (error (message_or "genericError" e), page)

-- `empty_form` is the form of the day on which the page was loaded.
unfoldable pub handle_create_invoice :
    (InvoiceCall → Outcome (Unit {0})) → InvoiceForm → InvoicePage → Created
handle_create_invoice answer empty_form page =
    let call = invoice_call page.form in
    let (notice, after) = after_create empty_form page (answer call) in
    if is_blank page.form.organization || is_blank page.form.subscription_plan
    then record { calls = []; notice = error (key "centerPlanRequired"); page = page }
    else record { calls = call ∷ []; notice = notice; page = after }

-- An invoice, with the fields that the page reads.
pub record Invoice : Type 0 where
  pub invoice_number : Text
  pub organization_name : Text
  pub plan_name : Text
  pub amount : Text
  pub balance : Text
  pub status : Text
  pub due_date : Text
  pub id : Text

-- `lower` is `toLowerCase`; whether `a.includes(q)`.
unfoldable pub includes_text : Text → Text → Bool
includes_text [] q = starts_with [] q
includes_text (c ∷ s) q = starts_with (c ∷ s) q || includes_text s q

unfoldable pub matches_search : (Text → Text) → Text → Invoice → Bool
matches_search lower search i =
    let q = lower search in
    is_blank q
    || (includes_text (lower i.invoice_number) q
        || (includes_text (lower i.organization_name) q || includes_text (lower i.plan_name) q))

unfoldable pub filtered_invoices : (Text → Text) → Text → List Invoice → List Invoice
filtered_invoices lower search [] = []
filtered_invoices lower search (i ∷ is) =
    let rest = filtered_invoices lower search is in
    if matches_search lower search i then i ∷ rest else rest

abbrev pub export_row : Invoice → List Text
export_row i =
    i.invoice_number ∷ i.organization_name ∷ i.plan_name ∷ i.amount ∷ i.balance ∷ i.status
    ∷ i.due_date ∷ []

-- The rows that are saved; `header` has the translated names of the seven columns.
unfoldable pub export_rows : (Text → Text) → Text → List Text → List Invoice → List (List Text)
export_rows lower search header invoices =
    header ∷ map export_row (filtered_invoices lower search invoices)

unfoldable pub handle_export_csv : (Text → Text) → Text → List Text → List Invoice → Text × Notice
handle_export_csv lower search header invoices =
    (csv_text (export_rows lower search header invoices), success (key "invoicesExportedToast"))
