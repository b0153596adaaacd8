-- ===== src/Screens/PlatformPayments/Recorded.antt =====
-- Recording a payment of an invoice of the platform, frontend/app/super-admin/payments/page.tsx.
use mentorio.Prelude.{Option, none, some, List, [], ◌∷◌}
use mentorio.Prelude.Text.{Text, codes}
use mentorio.Json.{Decimal}
use mentorio.Client.{Outcome, ok, throw}
use mentorio.Screens.{key, Notice, success, error, message_or}
use mentorio.Screens.Numbers.{number_value}
use mentorio.Screens.PlatformPayments.{Invoice, or_zero, or_undefined}

pub record PaymentForm : Type 0 where
  pub amount : Text
  pub method : Text
  pub reference_note : Text

pub record PaymentPage : Type 0 where
  pub paying_invoice : Option Invoice
  pub form : PaymentForm

unfoldable pub open_record_payment : Invoice → PaymentPage → PaymentPage
open_record_payment invoice page = record {
  paying_invoice = some invoice;
  form = record { amount = invoice.balance; method = codes "bank_transfer"; reference_note = [] };
}

pub record PaymentCall : Type 0 where
  pub platform_invoice : Text
  pub amount : Decimal
  pub method : Text
  pub reference_note : Option Text

unfoldable pub payment_call : Invoice → PaymentForm → PaymentCall
payment_call invoice form = record {
  platform_invoice = invoice.id;
  amount = or_zero (number_value form.amount);
  method = form.method;
  reference_note = or_undefined form.reference_note;
}

pub record Paid : Type 0 where
  pub calls : List PaymentCall
  pub notice : Option Notice
  pub page : PaymentPage

abbrev pub after_payment : PaymentPage → Outcome (Unit {0}) → Notice × PaymentPage
after_payment page (ok _) =
    (success (key "paymentRecordedToast"), record page { paying_invoice = none })
after_payment page (throw e) = (error (message_or "genericError" e), page)

unfoldable pub record_payment_for :
    (PaymentCall → Outcome (Unit {0})) → Option Invoice → PaymentPage → Paid
record_payment_for answer none page = record { calls = []; notice = none; page = page }
record_payment_for answer (some invoice) page =
    let call = payment_call invoice page.form in
    let (notice, after) = after_payment page (answer call) in
    record { calls = call ∷ []; notice = some notice; page = after }

unfoldable pub handle_record_payment : (PaymentCall → Outcome (Unit {0})) → PaymentPage → Paid
handle_record_payment answer page = record_payment_for answer page.paying_invoice page
