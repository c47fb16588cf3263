-- ===== src/Billing/Invoices.antt =====
-- app/billing/invoices.py: `InvoiceService`. The number of a new invoice is made from the clock and a
-- random suffix, and is an argument; what Python makes of the values in `items_data` is a parameter.
pub mod Totals
use multi_agent_ai_system.Prelude.{
  ℕ, ◌+◌, ◌==◌, String, str_eq, Bool, true, ◌&&◌, Option, none, some, List, [], ◌∷◌, ◌++◌, select,
  if◌then◌else◌,
}
use multi_agent_ai_system.Prelude.Int.{ℤ, pos, ◌+ℤ◌, ◌-ℤ◌, ◌*ℤ◌}
use multi_agent_ai_system.Core.Exceptions.{
  Exception, app_exception, Result, ok, err, Action, pure, lift, scalar_one_or_none, or_raise,
  ◌>>=◌, ◌>>◌,
}
use multi_agent_ai_system.Prelude.Json.{Json, str, Dict, get}
use multi_agent_ai_system.Billing.Models.{Invoice, InvoiceItem}
use multi_agent_ai_system.Billing.Session.{Session, commit, change, new_id, save_invoice}
use multi_agent_ai_system.Billing.Status.{validate_invoice_transition}
use multi_agent_ai_system.Billing.Subscription.Lookup.{days}

abbrev pub invoice_not_found : Exception
invoice_not_found = app_exception "INVOICE_NOT_FOUND" 404

unfoldable pub get_invoice : ℕ → ℕ → Action Session Invoice
get_invoice tenant_id invoice_id = do
  inv ← λ s.
      scalar_one_or_none
        (select (λ r. r.id == invoice_id && r.tenant_id == tenant_id) s.view.invoices) s
  or_raise inv invoice_not_found

-- `list_invoices` before its rows are ordered by their date
unfoldable pub list_invoices : ℕ → Option String → Session → List Invoice
list_invoices tenant_id none s = select (λ r. r.tenant_id == tenant_id) s.view.invoices
list_invoices tenant_id (some status) s =
    select
      (λ r. r.tenant_id == tenant_id && (if str_eq status "" then true else str_eq r.status status))
      s.view.invoices

-- Functions of Python: what `int(…)` makes of a value, and `Decimal(str(…)).quantize(Decimal("0.01"))` in
-- hundredths, or what they raise.
pub record Numbers : Type 0 where
  pub int_of : Json → Result ℤ
  pub decimal_of : Json → Result ℤ

abbrev pub on_ok : {A B : Type 0} → Result A → (A → Result B) → Result B
on_ok (ok a) f = f a
on_ok (err e) f = err e

abbrev pub present : Option Json → Result Json
present none = err Exception.key_error
present (some v) = ok v

-- `d[k]`
abbrev pub required : String → Dict → Result Json
required k d = present (get k d)

-- `int(item_def.get("quantity", 1))`
abbrev pub quantity_of : Numbers → Option Json → Result ℤ
quantity_of numbers none = ok (pos 1)
quantity_of numbers (some v) = numbers.int_of v

abbrev pub revenue_or_subscription : Option Json → Json
revenue_or_subscription none = str "SUBSCRIPTION"
revenue_or_subscription (some r) = r

-- An entry of `items_data`. The product of a price in hundredths with a whole number is in hundredths.
unfoldable pub item_row : Numbers → Dict → Result InvoiceItem
item_row numbers item_def = on_ok (quantity_of numbers (get "quantity" item_def)) λ quantity.
    on_ok (required "unit_price" item_def) λ price. on_ok (numbers.decimal_of price) λ unit_price.
      on_ok (required "description" item_def) λ description. ok (record {
        description = description;
        revenue_type = revenue_or_subscription (get "revenue_type" item_def);
        amount = unit_price *ℤ quantity;
        quantity = quantity;
        unit_price = unit_price;
        metadata_ = get "metadata" item_def;
      })

-- The loop over `items_data`: the subtotal so far and the rows so far.
unfoldable pub add_items :
    Numbers → List Dict → ℤ → List InvoiceItem → Result (ℤ × List InvoiceItem)
unfolding item_row
add_items numbers [] subtotal items = ok (subtotal, items)
add_items numbers (d ∷ ds) subtotal items =
    on_ok (item_row numbers d) λ i. add_items numbers ds (subtotal +ℤ i.amount) (items ++ i ∷ [])

pub record InvoiceTerms : Type 0 where
  pub subscription_id : Option ℕ
  pub discount : ℤ
  pub tax : ℤ
  pub currency : String
  pub billing_period_start : Option ℕ
  pub billing_period_end : Option ℕ
  pub due_days : ℕ

abbrev invoice_row : ℕ → ℕ → ℕ → String → InvoiceTerms → ℤ → List InvoiceItem → Invoice
invoice_row id now tenant_id number t subtotal items = record {
  id = id;
  tenant_id = tenant_id;
  subscription_id = t.subscription_id;
  invoice_number = number;
  status = "ISSUED";
  subtotal = subtotal;
  discount = t.discount;
  tax = t.tax;
  total = subtotal -ℤ t.discount +ℤ t.tax;
  currency = t.currency;
  billing_period_start = t.billing_period_start;
  billing_period_end = t.billing_period_end;
  issued_at = some now;
  due_at = some (now + days t.due_days);
  paid_at = none;
  voided_at = none;
  items = items;
}

-- The invoice gets its identifier when it is added to the session.
unfoldable pub add_invoice :
    ℕ → String → ℕ → InvoiceTerms → ℤ × List InvoiceItem → Action Session Invoice
add_invoice now number tenant_id terms (subtotal, items) = do
  id ← new_id
  let invoice = invoice_row id now tenant_id number terms subtotal items
  change (λ d. record d { invoices = d.invoices ++ invoice ∷ [] })
  commit
  pure invoice

unfoldable pub create_invoice :
    Numbers → ℕ → String → ℕ → List Dict → InvoiceTerms → Action Session Invoice
unfolding add_items add_invoice
create_invoice numbers now number tenant_id items_data terms = do
  sums ← lift (add_items numbers items_data (pos 0) [])
  add_invoice now number tenant_id terms sums

-- The times that a new status sets.
abbrev pub invoice_stamps : ℕ → String → Invoice → Invoice
invoice_stamps now new_status inv =
    if str_eq new_status "PAID"
    then record inv { paid_at = some now }
    else if str_eq new_status "VOID"
    then record inv { voided_at = some now }
    else inv

unfoldable pub update_status : ℕ → ℕ → ℕ → String → Action Session Invoice
update_status now tenant_id invoice_id new_status = do
  inv ← get_invoice tenant_id invoice_id
  lift (validate_invoice_transition inv.status new_status)
  let moved = invoice_stamps now new_status (record inv { status = new_status })
  save_invoice moved
  commit
  pure moved
