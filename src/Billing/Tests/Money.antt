-- ===== src/Billing/Tests/Money.antt =====
-- Amounts, statuses, refunds, invoices and providers at concrete inputs.
use multi_agent_ai_system.Prelude.{
  ℕ, ◌+◌, ◌*◌, ◌≤◌, str_eq, true, false, Option, none, some, List, [], ◌∷◌, ◌≡◌, refl, arith,
}
use multi_agent_ai_system.Prelude.Text.{lower, upper, strip}
use multi_agent_ai_system.Billing.Plans.{calculate_billed_amount}
use multi_agent_ai_system.Billing.Plans.Amounts.{yearly_bill_bounds}
use multi_agent_ai_system.Prelude.Int.{ℤ, pos, ◌*ℤ◌, ◌+ℤ◌, ◌-ℤ◌}
use multi_agent_ai_system.Core.Exceptions.{Exception, Result, ok, err, ◌>>=◌, ◌>>◌}
use multi_agent_ai_system.Prelude.Json.{Json, num, str, amount_text, Dict, end, entry}
use multi_agent_ai_system.Billing.Models.{Invoice, InvoiceItem}
use multi_agent_ai_system.Core.Triples.{Holds}
use multi_agent_ai_system.Billing.Session.{Session}
use multi_agent_ai_system.Billing.Provider.{PaymentProvider}
use multi_agent_ai_system.Billing.Payments.Choice.{
  Settings, init_provider, get_default_payment_provider,
}
use multi_agent_ai_system.Billing.Payments.Safety.{live-not_fake}
use multi_agent_ai_system.Billing.Refunds.{execute_approved_refund}
use multi_agent_ai_system.Billing.Refunds.Safety.{RefundsBounded, execute_approved_refund-Keeps}
use multi_agent_ai_system.Billing.Invoices.{
  Numbers, InvoiceTerms, item_row, add_items, add_invoice, create_invoice,
}
use multi_agent_ai_system.Billing.Invoices.Totals.{ItemsOf, sum_amounts, create_invoice-adds_up}
use multi_agent_ai_system.Billing.Tests.{bill, shop}

abbrev accepting : PaymentProvider
accepting = record {
  provider_name = "midtrans";
  create_payment = λ tenant_id invoice_id amount currency. record {
    success = true;
    provider_payment_id = "mt-3";
    status = "PENDING";
  };
  refund = λ key amount reason.
      ok (record { success = true; refund_id = "r-1"; amount = amount; error_message = none });
  handle_webhook = λ payload headers secret. err Exception.value_error;
}

execute_approved_refund-Keeps_example :
    Holds (λ _. RefundsBounded) RefundsBounded (execute_approved_refund accepting 7 6 shop)
execute_approved_refund-Keeps_example = execute_approved_refund-Keeps accepting 7 6 shop (record {
  view_ok = (omega arith, (omega arith, tt));
  stored_ok = (omega arith, (omega arith, tt));
})

-- Whole numbers are read as they are, texts of amounts as their hundredths.
abbrev int_of : Json → Result ℤ
int_of (Json.num n) = ok n
int_of _ = err Exception.value_error

abbrev decimal_of : Json → Result ℤ
decimal_of (Json.amount_text n) = ok n
decimal_of _ = err Exception.value_error

abbrev numbers : Numbers
numbers = record { int_of = int_of; decimal_of = decimal_of }

abbrev two_items : List Dict
two_items =
    entry "description" (str "plan") (entry "unit_price" (amount_text (pos 500)) end)
    ∷ entry "description" (str "seat")
        (entry "quantity" (num (pos 3)) (entry "unit_price" (amount_text (pos 20)) end))
    ∷ []

abbrev terms : InvoiceTerms
terms = record {
  subscription_id = none;
  discount = pos 60;
  tax = pos 55;
  currency = "IDR";
  billing_period_start = none;
  billing_period_end = none;
  due_days = 7;
}

create_invoice-adds_up_example :
    Holds
      (λ inv (s' : Session).
        ItemsOf numbers two_items inv.items
        × (inv.subtotal ≡ sum_amounts inv.items)
        × (inv.total ≡ sum_amounts inv.items -ℤ pos 60 +ℤ pos 55)
        × (inv.tenant_id ≡ 7)
        × (inv.status ≡ "ISSUED")
        × (s'.stored.invoices ≡ bill ∷ inv ∷ []))
      (λ s'. (s' ≡ shop) × ¬ ((is : List InvoiceItem) × ItemsOf numbers two_items is))
      (create_invoice numbers 30 "INV-2" 7 two_items terms shop)
create_invoice-adds_up_example = create_invoice-adds_up numbers 30 "INV-2" 7 two_items terms shop

-- Of 5.00 and three times 0.20, less 0.60 and with a tax of 0.55.
total_of : Result Invoice → Option ℤ
total_of (ok inv) = some inv.total
total_of (err e) = none

billed : total_of (create_invoice numbers 30 "INV-2" 7 two_items terms shop).0 ≡ some (pos 555)
unfolding total_of create_invoice add_items item_row add_invoice ◌>>=◌ ◌>>◌ ◌+ℤ◌ ◌-ℤ◌ ◌*ℤ◌
billed = refl

abbrev live : Settings
live = record {
  app_env = "production";
  payment_provider = "midtrans";
  midtrans_server_key = "key";
  midtrans_is_sandbox = false;
}

live-not_fake_example : str_eq (lower (strip "midtrans")) "fake" ≡ false
unfolding lower init_provider get_default_payment_provider
live-not_fake_example = live-not_fake live none "midtrans" refl refl

yearly_bill_bounds_example :
    (b : ℕ) × (calculate_billed_amount (pos 29900000) "Yearly" ≡ pos b)
    × (5 * b ≤ 51 * 29900000 + 2)
    × (51 * 29900000 ≤ 5 * b + 2)
    × (b ≤ 12 * 29900000)
unfolding upper
yearly_bill_bounds_example = yearly_bill_bounds 29900000 "Yearly" refl
