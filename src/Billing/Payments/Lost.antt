-- ===== src/Billing/Payments/Lost.antt =====
-- What a failed payment leaves behind when the subscription cannot follow.
use multi_agent_ai_system.Prelude.{
  ℕ, ◌==◌, String, str_eq, eq_iff, false, ◌&&◌, Option, some, [], ◌∷◌, select, save, ◌≡◌, refl, ◌∙◌,
  ap, arith,
}
use multi_agent_ai_system.Prelude.Int.{pos}
use multi_agent_ai_system.Core.Exceptions.{Exception, ok, err, bind_ok, bind_err, ◌>>◌}
use multi_agent_ai_system.StateMachine.Dictionary.{validate_in}
use multi_agent_ai_system.Billing.Models.{Payment, Subscription}
use multi_agent_ai_system.Billing.Session.{Session, finish, get_db}
use multi_agent_ai_system.Billing.Status.{
  validate_subscription_transition, validate_payment_transition,
}
use multi_agent_ai_system.Billing.Entitlement.Laws.{get_subscription_or_none-one}
use multi_agent_ai_system.Billing.Subscription.Lookup.{
  get_subscription, transition_subscription_status,
}
use multi_agent_ai_system.Billing.Subscription.Changed.{same_status}
use multi_agent_ai_system.Billing.Subscription.Ending.{update_payment_failure_status}
use multi_agent_ai_system.Billing.Payments.Confirm.{get_payment, fail, record_payment_failure}

get_payment-one :
    (tenant_id payment_id : ℕ) (payment : Payment) (s : Session)
    → select (λ r. r.id == payment_id && r.tenant_id == tenant_id) s.view.payments ≡ payment ∷ []
    → get_payment tenant_id payment_id s ≡ (ok payment, s)
unfolding get_payment
get_payment-one tenant_id payment_id payment s found =
    bind_ok _ _ s s (some payment) (rw found refl)

get_subscription-one :
    (tenant_id : ℕ) (sub : Subscription) (s : Session)
    → select (λ r. r.tenant_id == tenant_id) s.view.subscriptions ≡ sub ∷ []
    → get_subscription tenant_id s ≡ (ok sub, s)
unfolding get_subscription
get_subscription-one tenant_id sub s one =
    bind_ok _ _ s s (some sub) (get_subscription_or_none-one tenant_id sub s one)

not_past_due :
    (status : String) (e : Exception)
    → validate_subscription_transition status "PAST_DUE" ≡ err e
    → str_eq "PAST_DUE" status ≡ false
not_past_due status e closed = ground (arith, eq_iff "PAST_DUE" status, same_status "PAST_DUE")

-- The session in which the subscription has been written back as it was.
abbrev rewritten : Subscription → Session → Session
rewritten sub s = record s {
  view = record s.view { subscriptions = save (λ x. x.id) sub s.view.subscriptions };
}

transition-refused :
    (sub : Subscription) (target actor : String) (reason : Option String) (e : Exception)
    (s : Session)
    → validate_subscription_transition sub.status target ≡ err e
    → transition_subscription_status sub target actor reason s ≡ (err e, s)
unfolding transition_subscription_status ◌>>◌
transition-refused sub target actor reason e s closed = bind_err _ _ s s e (rw closed refl)

update-refused :
    (now tenant_id : ℕ) (sub : Subscription) (e : Exception) (s : Session)
    → select (λ r. r.tenant_id == tenant_id) s.view.subscriptions ≡ sub ∷ []
    → validate_subscription_transition sub.status "PAST_DUE" ≡ err e
    → update_payment_failure_status now tenant_id (pos 0) s ≡ (err e, rewritten sub s)
unfolding update_payment_failure_status ◌>>◌
update-refused now tenant_id sub e s one closed =
    bind_ok _ _ s s sub (get_subscription-one tenant_id sub s one)
    ∙ (bind_ok _ _ s (rewritten sub s) tt refl
        ∙ rw (not_past_due sub.status e closed)
            (transition-refused sub "PAST_DUE" "SYSTEM" _ e (rewritten sub s) closed))

-- The session in which the payment has been marked as failed.
abbrev marked : ℕ → String → Payment → Session → Session
marked now reason payment s =
    let failed : Payment = record payment {
      status = "FAILED";
      failed_at = some now;
      failure_reason = some reason;
    } in
    record s { view = record s.view { payments = save (λ x. x.id) failed s.view.payments } }

fail-refused :
    (now tenant_id : ℕ) (reason : String) (payment : Payment) (sub : Subscription) (e : Exception)
    (s : Session)
    → payment.status ≡ "PENDING"
    → select (λ r. r.tenant_id == tenant_id) s.view.subscriptions ≡ sub ∷ []
    → validate_subscription_transition sub.status "PAST_DUE" ≡ err e
    → fail now tenant_id payment reason s ≡ (err e, rewritten sub (marked now reason payment s))
unfolding fail validate_payment_transition validate_in ◌>>◌
fail-refused now tenant_id reason payment sub e s pending one closed =
    bind_ok _ _ s s tt (rw pending refl)
    ∙ (bind_ok _ _ s (marked now reason payment s) tt refl
        ∙ bind_err _ _ (marked now reason payment s) (rewritten sub (marked now reason payment s)) e
            (update-refused now tenant_id sub e (marked now reason payment s) one closed))

unmarked : (status : String) → status ≡ "PENDING" → str_eq status "FAILED" ≡ false
unmarked status h = rw h refl

record_payment_failure-refused :
    (now tenant_id payment_id : ℕ) (reason : String) (payment : Payment) (sub : Subscription)
    (e : Exception) (s : Session)
    → select (λ r. r.id == payment_id && r.tenant_id == tenant_id) s.view.payments ≡ payment ∷ []
    → payment.status ≡ "PENDING"
    → select (λ r. r.tenant_id == tenant_id) s.view.subscriptions ≡ sub ∷ []
    → validate_subscription_transition sub.status "PAST_DUE" ≡ err e
    → record_payment_failure now tenant_id payment_id reason s
      ≡ (err e, rewritten sub (marked now reason payment s))
unfolding record_payment_failure
record_payment_failure-refused now tenant_id payment_id reason payment sub e s found pending one
      closed =
    bind_ok _ _ s s payment (get_payment-one tenant_id payment_id payment s found)
    ∙ rw (unmarked payment.status pending)
        (fail-refused now tenant_id reason payment sub e s pending one closed)

-- A pending payment fails while its tenant's subscription is in a status that has no way to PAST_DUE
-- (such as GRACE_PERIOD, SUSPENDED or CANCELLED_PENDING_EXPIRY): the call raises, the request is rolled
-- back, and nothing of the failure stays recorded.
pub failure_lost :
    (now tenant_id payment_id : ℕ) (reason : String) (payment : Payment) (sub : Subscription)
    (e : Exception) (s : Session)
    → select (λ r. r.id == payment_id && r.tenant_id == tenant_id) s.view.payments ≡ payment ∷ []
    → payment.status ≡ "PENDING"
    → select (λ r. r.tenant_id == tenant_id) s.view.subscriptions ≡ sub ∷ []
    → validate_subscription_transition sub.status "PAST_DUE" ≡ err e
    → get_db (record_payment_failure now tenant_id payment_id reason) s
      ≡ (err e, record s { view = s.stored })
unfolding get_db
failure_lost now tenant_id payment_id reason payment sub e s found pending one closed = ap finish (
    record_payment_failure-refused now tenant_id payment_id reason payment sub e s found pending one
      closed)
