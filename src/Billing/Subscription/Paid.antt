-- ===== src/Billing/Subscription/Paid.antt =====
-- No paid plan without a verified payment.
use multi_agent_ai_system.Prelude.{
  ℕ, String, Bool, true, false, not, ◌&&◌, Option, none, some, ◌≡◌, refl, inl, inr, subst,
}
use multi_agent_ai_system.Prelude.Int.{pos, ltb_ℤ}
use multi_agent_ai_system.Prelude.Json.{or_empty}
use multi_agent_ai_system.Core.Exceptions.{
  Exception, Result, ok, err, Result-cases, Action, raise_if, ◌>>=◌, ◌>>◌,
}
use multi_agent_ai_system.Core.Triples.{Holds, Triple, bind_rule, consequence}
use multi_agent_ai_system.Billing.Models.{Subscription}
use multi_agent_ai_system.Billing.Session.{Session}
use multi_agent_ai_system.Billing.Status.{validate_subscription_transition}
use multi_agent_ai_system.Billing.Subscription.Activation.{
  Terms, activate_row, payment_verification_required, activate_subscription,
}
use multi_agent_ai_system.Billing.Subscription.PlanChange.{
  cycle_or, restrict_metadata, write_change, change_plan,
}
use multi_agent_ai_system.Billing.Subscription.Impact.{Impact, evaluate_plan_change_impact}
use multi_agent_ai_system.Billing.Subscription.Changed.{impact-Keeps}
use multi_agent_ai_system.Billing.Subscription.Lookup.{get_subscription, get_subscription_or_none}
use multi_agent_ai_system.Billing.Plans.{get_or_seed_plan, calculate_billed_amount}

-- Any state
abbrev pub Any : Session → Type 0
Any s = Unit

outcome : {A : Type 0} (o : Result A × Session) → Holds (λ _. Any) Any o
outcome (ok a, s) = tt
outcome (err e, s) = tt

anything : {A : Type 0} (m : Action Session A) → Triple Any m (λ _. Any) Any
anything m s _ = outcome (m s)

-- What goes with a price above zero is a verified payment.
abbrev pub IsCovered : Bool → Subscription → Type 0
IsCovered verified sub = (ltb_ℤ (pos 0) sub.amount && not verified) ≡ false

-- The guard of a billed amount
covered_by_guard : (b : Bool) (e : Exception) → Triple Any (raise_if b e) (λ _ _. b ≡ false) Any
covered_by_guard true e s _ = tt
covered_by_guard false e s _ = refl

activate_row-IsCovered :
    (verified : Bool) (old : Option Subscription) (tenant_id : ℕ) (t : Terms) (code actor : String)
    → Triple
        (λ _. (ltb_ℤ (pos 0) t.billed && not verified) ≡ false)
        (activate_row old tenant_id t code actor)
        (λ sub _. IsCovered verified sub × (sub.status ≡ "ACTIVE"))
        Any
unfolding activate_row ◌>>=◌ ◌>>◌
activate_row-IsCovered verified none tenant_id t code actor s h = (h, refl)
activate_row-IsCovered verified (some old) tenant_id t code actor s h =
    elim (Result-cases (validate_subscription_transition old.status "ACTIVE")) [
      | inl fine ↦ rw fine (h, refl)
      | inr (e, refused) ↦ rw refused tt
    ]

activate_subscription_rule :
    (now tenant_id : ℕ) (plan_code billing_cycle actor : String) (verified_payment : Bool)
    → Triple Any
        (activate_subscription now tenant_id plan_code billing_cycle actor verified_payment)
        (λ sub _. IsCovered verified_payment sub × (sub.status ≡ "ACTIVE"))
        Any
unfolding activate_subscription ◌>>◌
activate_subscription_rule now tenant_id plan_code billing_cycle actor verified =
    let Q : Subscription → Session → Type 0 =
      λ sub _. IsCovered verified sub × (sub.status ≡ "ACTIVE") in
    bind_rule Any (λ _. Any) Q Any _ _ (anything (get_subscription_or_none tenant_id))
      λ old.
        bind_rule Any (λ _. Any) Q Any _ _ (anything (get_or_seed_plan plan_code))
          λ plan.
            bind_rule Any
              (λ _ _.
                (ltb_ℤ (pos 0) (calculate_billed_amount plan.price_monthly billing_cycle)
                  && not verified)
                ≡ false)
              Q Any _ _ (covered_by_guard _ _)
              λ _.
                bind_rule _ Q Q Any _ _
                  (activate_row-IsCovered verified old tenant_id _ plan_code actor)
                  λ sub. bind_rule (Q sub) (λ _. Q sub) Q Any _ _ (λ s h. h) λ _ s h. h

-- An activation that returns gives an active subscription, and one with a price above zero only for a
-- verified payment.
pub activate_subscription-IsCovered :
    (now tenant_id : ℕ) (plan_code billing_cycle actor : String) (verified_payment : Bool)
    (s s' : Session) (sub : Subscription)
    → activate_subscription now tenant_id plan_code billing_cycle actor verified_payment s
      ≡ (ok sub, s')
    → IsCovered verified_payment sub × (sub.status ≡ "ACTIVE")
activate_subscription-IsCovered now tenant_id plan_code billing_cycle actor verified s s' sub e =
    subst (Holds (λ x _. IsCovered verified x × (x.status ≡ "ACTIVE")) Any) e
      (activate_subscription_rule now tenant_id plan_code billing_cycle actor verified s tt)

reading :
    (P : Session → Type 0) (tenant_id : ℕ) (code : String)
    → Triple P (evaluate_plan_change_impact tenant_id code) (λ _. P) Any
reading P tenant_id code =
    consequence P P (λ _. P) (λ _. P) P Any _ (λ s h. h) (λ _ s h. h) (λ s h. tt)
      (impact-Keeps P tenant_id code)

writes :
    (P : Type 0) (tenant_id : ℕ) (sub changed : Subscription) (actor code : String)
    → Triple (λ _. P) (write_change tenant_id sub changed actor code) (λ _ _. P) Any
unfolding write_change ◌>>=◌ ◌>>◌
writes P tenant_id sub changed actor code s h = h

change_plan_rule :
    (tenant_id : ℕ) (new_plan_code : String) (billing_cycle : Option String) (actor : String)
    (verified_payment : Bool)
    → Triple Any
        (change_plan tenant_id new_plan_code billing_cycle actor verified_payment)
        (λ sub _. IsCovered verified_payment sub)
        Any
unfolding change_plan ◌>>◌
change_plan_rule tenant_id new_plan_code billing_cycle actor verified =
    let Q : Subscription → Session → Type 0 = λ sub _. IsCovered verified sub in
    bind_rule Any (λ _. Any) Q Any _ _ (anything (get_subscription tenant_id))
      λ old.
        bind_rule Any (λ _. Any) Q Any _ _ (anything (get_or_seed_plan new_plan_code))
          λ plan.
            let billed =
              calculate_billed_amount plan.price_monthly
                (cycle_or billing_cycle old.billing_cycle) in
            let P : Session → Type 0 = λ _. (ltb_ℤ (pos 0) billed && not verified) ≡ false in
            let changed : Impact → Subscription = λ impact. record old {
              plan_id = plan.id;
              billing_cycle = cycle_or billing_cycle old.billing_cycle;
              amount = billed;
              metadata_ = some (restrict_metadata impact (or_empty old.metadata_));
            } in
            bind_rule Any (λ _. P) Q Any _ _
              (covered_by_guard (ltb_ℤ (pos 0) billed && not verified)
                payment_verification_required)
              λ _.
                bind_rule P (λ _. P) Q Any _ _ (reading P tenant_id new_plan_code)
                  λ impact.
                    bind_rule P (λ _. P) Q Any _ _
                      (writes ((ltb_ℤ (pos 0) billed && not verified) ≡ false) tenant_id old
                        (changed impact) actor new_plan_code)
                      λ _. bind_rule P (λ _. P) Q Any _ _ (λ s h. h) λ _ s h. h

-- A plan change that returns gives a price above zero only for a verified payment.
pub change_plan-IsCovered :
    (tenant_id : ℕ) (new_plan_code : String) (billing_cycle : Option String) (actor : String)
    (verified_payment : Bool) (s s' : Session) (sub : Subscription)
    → change_plan tenant_id new_plan_code billing_cycle actor verified_payment s ≡ (ok sub, s')
    → IsCovered verified_payment sub
change_plan-IsCovered tenant_id code cycle actor verified s s' sub e =
    subst (Holds (λ x _. IsCovered verified x) Any) e
      (change_plan_rule tenant_id code cycle actor verified s tt)
