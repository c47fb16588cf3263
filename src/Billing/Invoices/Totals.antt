-- ===== src/Billing/Invoices/Totals.antt =====
-- The items and the sums of an invoice.
use mathlib.Core.List.{append_assoc, append-nil}
use multi_agent_ai_system.Prelude.{
  ℕ, String, Option, none, some, List, [], ◌∷◌, ◌++◌, ◌≡◌, refl, sym, subst, ap, ◌∙◌, inl, inr,
}
use multi_agent_ai_system.Prelude.Int.{ℤ, pos, ◌+ℤ◌, ◌-ℤ◌, ◌*ℤ◌, int_laws}
use multi_agent_ai_system.Prelude.Json.{Json, str, Dict, get}
use multi_agent_ai_system.Core.Exceptions.{Exception, Result, ok, err, Result-split, ◌>>=◌, ◌>>◌}
use multi_agent_ai_system.Core.Triples.{Holds}
use multi_agent_ai_system.Billing.Models.{InvoiceItem}
use multi_agent_ai_system.Billing.Session.{Session}
use multi_agent_ai_system.Billing.Invoices.{
  Numbers, InvoiceTerms, on_ok, present, quantity_of, revenue_or_subscription, item_row, add_items,
  add_invoice, create_invoice,
}

abbrev pub sum_amounts : List InvoiceItem → ℤ
sum_amounts [] = pos 0
sum_amounts (i ∷ is) = i.amount +ℤ sum_amounts is

-- A value of an entry that may be missing
abbrev pub OrDefault : Option Json → (Json → Type 0) → Type 0 → Type 0
OrDefault none P D = D
OrDefault (some v) P D = P v

-- What an item says of its entry: its description and its price are there, the quantity is 1 and the revenue
-- that of a subscription where the entry does not say, and the amount is the price times the quantity.
pub record IsItemOf (numbers : Numbers) (d : Dict) (i : InvoiceItem) : Type 0 where
  pub quantity :
      OrDefault (get "quantity" d) (λ v. numbers.int_of v ≡ ok i.quantity) (i.quantity ≡ pos 1)
  pub price : Json
  pub has_price : get "unit_price" d ≡ some price
  pub unit_price : numbers.decimal_of price ≡ ok i.unit_price
  pub description : get "description" d ≡ some i.description
  pub revenue :
      OrDefault
        (get "revenue_type" d)
        (λ v. i.revenue_type ≡ v)
        (i.revenue_type ≡ str "SUBSCRIPTION")
  pub metadata : i.metadata_ ≡ get "metadata" d
  pub amount : i.amount ≡ i.unit_price *ℤ i.quantity

-- One item for each entry, in order.
abbrev pub ItemsOf : Numbers → List Dict → List InvoiceItem → Type 0
ItemsOf numbers [] [] = Unit
ItemsOf numbers [] (i ∷ is) = ⊥
ItemsOf numbers (d ∷ ds) [] = ⊥
ItemsOf numbers (d ∷ ds) (i ∷ is) = IsItemOf numbers d i × ItemsOf numbers ds is

ok_injective : {A : Type 0} (a b : A) → ◌≡◌ {A = Result A} (ok a) (ok b) → a ≡ b
ok_injective a b h = cc

ok-ne-err : {A : Type 0} (a : A) (e : Exception) → ◌≡◌ {A = Result A} (ok a) (err e) → ⊥
ok-ne-err a e h = cc

+ℤ_assoc : (a b c : ℤ) → a +ℤ b +ℤ c ≡ a +ℤ (b +ℤ c)
+ℤ_assoc a b c = grind int_laws

zero_add : (a : ℤ) → pos 0 +ℤ a ≡ a
zero_add a = grind int_laws

add_zero : (a : ℤ) → a ≡ a +ℤ pos 0
add_zero a = grind int_laws

on_ok-eq-ok :
    {A B : Type 0} (m : Result A) (f : A → Result B) (b : B)
    → on_ok m f ≡ ok b
    → (a : A) × (m ≡ ok a) × (f a ≡ ok b)
on_ok-eq-ok (ok a) f b h = (a, refl, h)
on_ok-eq-ok (err e) f b h = cc

on_ok-ok : {A B : Type 0} (m : Result A) (f : A → Result B) (a : A) → m ≡ ok a → on_ok m f ≡ f a
on_ok-ok m f a h = ap (λ x. on_ok x f) h

present-eq-ok : (o : Option Json) (v : Json) → present o ≡ ok v → o ≡ some v
present-eq-ok none v h = cc
present-eq-ok (some w) v h = cc

revenue_lem :
    (o : Option Json)
    → OrDefault o
        (λ v. revenue_or_subscription o ≡ v)
        (revenue_or_subscription o ≡ str "SUBSCRIPTION")
revenue_lem none = refl
revenue_lem (some v) = refl

revenue_unique :
    (o : Option Json) (r : Json)
    → OrDefault o (λ v. r ≡ v) (r ≡ str "SUBSCRIPTION")
    → revenue_or_subscription o ≡ r
revenue_unique none r h = sym h
revenue_unique (some v) r h = sym h

module _ (numbers : Numbers) where
  quantity_of-eq-ok :
      (o : Option Json) (q : ℤ)
      → quantity_of numbers o ≡ ok q
      → OrDefault o (λ v. numbers.int_of v ≡ ok q) (q ≡ pos 1)
  quantity_of-eq-ok none q h = cc
  quantity_of-eq-ok (some v) q h = h

  quantity_of-ok :
      (o : Option Json) (q : ℤ)
      → OrDefault o (λ v. numbers.int_of v ≡ ok q) (q ≡ pos 1)
      → quantity_of numbers o ≡ ok q
  quantity_of-ok none q h = ap ok (sym h)
  quantity_of-ok (some v) q h = h

  item_row-IsItemOf :
      (d : Dict) (i : InvoiceItem) → item_row numbers d ≡ ok i → IsItemOf numbers d i
  unfolding item_row
  item_row-IsItemOf d i h =
      let (q, eq, h1) = on_ok-eq-ok (quantity_of numbers (get "quantity" d)) _ i h in
      let (p, ep, h2) = on_ok-eq-ok (present (get "unit_price" d)) _ i h1 in
      let (u, eu, h3) = on_ok-eq-ok (numbers.decimal_of p) _ i h2 in
      let (t, et, h4) = on_ok-eq-ok (present (get "description" d)) _ i h3 in
      subst (IsItemOf numbers d) (ok_injective _ i h4) (record {
        quantity = quantity_of-eq-ok (get "quantity" d) q eq;
        price = p;
        has_price = present-eq-ok (get "unit_price" d) p ep;
        unit_price = eu;
        description = present-eq-ok (get "description" d) t et;
        revenue = revenue_lem (get "revenue_type" d);
        metadata = refl;
        amount = refl;
      })

  IsItemOf-item_row :
      (d : Dict) (i : InvoiceItem) → IsItemOf numbers d i → item_row numbers d ≡ ok i
  unfolding item_row
  IsItemOf-item_row d i h =
      on_ok-ok (quantity_of numbers (get "quantity" d)) _ i.quantity
        (quantity_of-ok (get "quantity" d) i.quantity h.quantity)
      ∙ on_ok-ok (present (get "unit_price" d)) _ h.price (ap present h.has_price)
      ∙ on_ok-ok (numbers.decimal_of h.price) _ i.unit_price h.unit_price
      ∙ on_ok-ok (present (get "description" d)) _ i.description (ap present h.description)
      ∙ ap
          (λ r. ok (record i {
            revenue_type = r;
            amount = i.unit_price *ℤ i.quantity;
            metadata_ = get "metadata" d;
          }))
          (revenue_unique (get "revenue_type" d) i.revenue_type h.revenue)
      ∙ ap (λ a. ok (record i { amount = a; metadata_ = get "metadata" d })) (sym h.amount)
      ∙ ap (λ m. ok (record i { metadata_ = m })) (sym h.metadata)

  -- What the loop makes of the entries: an item for each, and the sum of their amounts.
  add_items-ItemsOf :
      (ds : List Dict) (subtotal : ℤ) (rows : List InvoiceItem) (o : ℤ × List InvoiceItem)
      → add_items numbers ds subtotal rows ≡ ok o
      → (is : List InvoiceItem) × ItemsOf numbers ds is
        × (o.1 ≡ rows ++ is)
        × (o.0 ≡ subtotal +ℤ sum_amounts is)
  unfolding add_items
  add_items-ItemsOf [] subtotal rows o h =
      let e = ok_injective (subtotal, rows) o h in
      (
        [],
        tt,
        sym (ap (λ (x : ℤ × List InvoiceItem). x.1) e) ∙ sym (append-nil rows),
        sym (ap (λ (x : ℤ × List InvoiceItem). x.0) e) ∙ add_zero subtotal,
      )
  add_items-ItemsOf (d ∷ ds) subtotal rows o h =
      let (i, ei, rest) = on_ok-eq-ok (item_row numbers d) _ o h in
      let (is, items, rows', sum) =
        add_items-ItemsOf ds (subtotal +ℤ i.amount) (rows ++ i ∷ []) o rest in
      (
        i ∷ is,
        (item_row-IsItemOf d i ei, items),
        rows' ∙ append_assoc rows (i ∷ []) is,
        sum ∙ +ℤ_assoc subtotal i.amount (sum_amounts is),
      )

  -- The loop does not raise where every entry has an item.
  ItemsOf-add_items :
      (ds : List Dict) (subtotal : ℤ) (rows is : List InvoiceItem)
      → ItemsOf numbers ds is
      → (o : ℤ × List InvoiceItem) × (add_items numbers ds subtotal rows ≡ ok o)
  unfolding add_items
  ItemsOf-add_items [] subtotal rows is h = ((subtotal, rows), refl)
  ItemsOf-add_items (d ∷ ds) subtotal rows [] h = absurd h
  ItemsOf-add_items (d ∷ ds) subtotal rows (i ∷ is) h =
      let (o, e) = ItemsOf-add_items ds (subtotal +ℤ i.amount) (rows ++ i ∷ []) is h.1 in
      (o, on_ok-ok (item_row numbers d) _ i (IsItemOf-item_row d i h.0) ∙ e)

-- An invoice whose entries can be read is added and committed, ISSUED for its tenant: it has an item for
-- each entry, in order, with the entry's price times its quantity, its subtotal is the sum of the items,
-- and its total is that less the discount plus the tax. Creating one raises only if there is no such item
-- for some entry (no price or description, or no number where one is wanted), and changes nothing then.
pub create_invoice-adds_up :
    (numbers : Numbers) (now : ℕ) (number : String) (tenant_id : ℕ) (items_data : List Dict)
    (terms : InvoiceTerms) (s : Session)
    → Holds
        (λ inv s'.
          ItemsOf numbers items_data inv.items
          × (inv.subtotal ≡ sum_amounts inv.items)
          × (inv.total ≡ sum_amounts inv.items -ℤ terms.discount +ℤ terms.tax)
          × (inv.tenant_id ≡ tenant_id)
          × (inv.status ≡ "ISSUED")
          × (s'.stored.invoices ≡ s.view.invoices ++ inv ∷ []))
        (λ s'. (s' ≡ s) × ¬ ((is : List InvoiceItem) × ItemsOf numbers items_data is))
        (create_invoice numbers now number tenant_id items_data terms s)
unfolding create_invoice add_invoice ◌>>=◌ ◌>>◌
create_invoice-adds_up numbers now number tenant_id items_data terms s =
    elim (Result-split (add_items numbers items_data (pos 0) [])) [
      | inr (e, unread) ↦ rw unread (
        refl,
        λ all.
            let (o, fine) = ItemsOf-add_items numbers items_data (pos 0) [] all.0 all.1 in
            ok-ne-err o e (sym fine ∙ unread),
      )
      | inl (o, read) ↦
          let (is, items, rows, sum) = add_items-ItemsOf numbers items_data (pos 0) [] o read in
          let total : o.0 ≡ sum_amounts o.1 =
            sum ∙ zero_add (sum_amounts is) ∙ ap sum_amounts (sym rows) in
          rw read (
            subst (ItemsOf numbers items_data) (sym rows) items,
            total,
            ap (λ t. t -ℤ terms.discount +ℤ terms.tax) total,
            refl,
            refl,
            refl,
          )
    ]
