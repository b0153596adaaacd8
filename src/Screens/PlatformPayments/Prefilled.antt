-- ===== src/Screens/PlatformPayments/Prefilled.antt =====
-- What choosing a plan or a center fills in, and what a new invoice is then made of.
use mentorio.Prelude.{ℕ, true, some, List, [], ◌∷◌, ◌≡◌, refl, ap, sym, ◌∙◌}
use mathlib.Core.Path.{subst}
use mentorio.Prelude.Text.{Text}
use mentorio.Client.{Outcome}
use mentorio.Screens.Numbers.{number_value}
use mentorio.Screens.PlatformPayments.{
  Plan, Organization, InvoiceForm, InvoiceCall, find_plan, find_organization, change_plan,
  change_organization, add_billing_cycle, invoice_call, handle_create_invoice, zero_amount,
  default_plan, or_plan, or_empty, or_zero,
}

-- Choosing a plan fills in its price and the end of the period that its billing cycle gives, and
-- leaves the rest of the form as it is.
pub change_plan-add_billing_cycle :
    (plans : List Plan) (value period_end : Text) (plan : Plan) (form : InvoiceForm)
    → find_plan plans value ≡ some plan
    → add_billing_cycle form.period_start plan.billing_cycle ≡ some period_end
    → change_plan plans value form
      ≡ some
          (record form { subscription_plan = value; amount = plan.price; period_end = period_end })
unfolding change_plan
change_plan-add_billing_cycle plans value period_end plan form found ends = rw (found, ends) refl

-- The form after a center is chosen that has a plan.
chosen :
    (organizations : List Organization) (value : Text) (o : Organization) (d : ℕ) (plan : Text)
    (form : InvoiceForm)
    → find_organization organizations value ≡ some o
    → o.subscription_plan ≡ some (d ∷ plan)
    → form.subscription_plan ≡ []
    → change_organization organizations value form
      ≡ record form { organization = value; subscription_plan = d ∷ plan }
unfolding change_organization
chosen organizations value o d plan form found has_plan unset =
    ap (λ t. record form { organization = value; subscription_plan = t })
      (ap (λ t. or_plan t (default_plan (find_organization organizations value))) unset
        ∙ ap default_plan found
        ∙ ap or_empty has_plan)

-- An invoice of zero is created from the form.
abbrev pub CreatesFree :
    (InvoiceCall → Outcome (Unit {0})) → InvoiceForm → Text → InvoiceForm → Type 0
CreatesFree answer empty_form plan form =
    (call : InvoiceCall) × ((handle_create_invoice answer empty_form
        (record { show_form = true; form = form })).calls
      ≡ call ∷ [])
    × (call.subscription_plan ≡ plan)
    × (call.amount ≡ zero_amount)

filled_in :
    (answer : InvoiceCall → Outcome (Unit {0})) (empty_form form : InvoiceForm) (c d : ℕ)
    (value plan : Text)
    → form.amount ≡ []
    → CreatesFree answer empty_form
        (d ∷ plan)
        (record form { organization = c ∷ value; subscription_plan = d ∷ plan })
unfolding handle_create_invoice invoice_call number_value
filled_in answer empty_form form c d value plan blank = (
  invoice_call (record form { organization = c ∷ value; subscription_plan = d ∷ plan }),
  refl,
  refl,
  ap (λ t. or_zero (number_value t)) blank,
)

-- Choosing a center that has a plan, with no plan chosen and no amount entered before, fills in the
-- plan and not its price: the invoice that is then created is one of zero, and no check stops it.
pub change_organization-handle_create_invoice :
    (answer : InvoiceCall → Outcome (Unit {0})) (empty_form form : InvoiceForm)
    (organizations : List Organization) (o : Organization) (c d : ℕ) (value plan : Text)
    → find_organization organizations (c ∷ value) ≡ some o
    → o.subscription_plan ≡ some (d ∷ plan)
    → form.subscription_plan ≡ []
    → form.amount ≡ []
    → CreatesFree answer empty_form (d ∷ plan) (change_organization organizations (c ∷ value) form)
change_organization-handle_create_invoice answer empty_form form organizations o c d value plan
      found has_plan unset blank =
    subst (CreatesFree answer empty_form (d ∷ plan))
      (sym (chosen organizations (c ∷ value) o d plan form found has_plan unset))
      (filled_in answer empty_form form c d value plan blank)
