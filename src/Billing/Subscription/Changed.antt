-- ===== src/Billing/Subscription/Changed.antt =====
-- The audit trail through a change of plan.
use Prim.Native.String.{◌++◌ as concat}
use multi_agent_ai_system.Prelude.{
  ℕ, String, str_eq, eq_iff, Bool, Option, some, select, ◌≡◌, refl, sym, ◌<◌, arith,
}
use multi_agent_ai_system.Prelude.Text.{lower}
use multi_agent_ai_system.Core.Exceptions.{ok, ◌>>=◌, ◌>>◌}
use multi_agent_ai_system.Core.Triples.{
  Triple, Keeps, bind_rule, bind-Keeps, query-Keeps, or_raise-Keeps, consequence,
}
use multi_agent_ai_system.StateMachine.Dictionary.{validate_in}
use multi_agent_ai_system.Billing.Models.{Subscription, SubscriptionHistory}
use multi_agent_ai_system.Billing.Session.{Session}
use multi_agent_ai_system.Billing.Status.{validate_subscription_transition}
use multi_agent_ai_system.Billing.Plans.{get_plan_by_code}
use multi_agent_ai_system.Billing.Subscription.Audit.{Audit, move-IsAudited, move-IsLogged}
use multi_agent_ai_system.Billing.Subscription.Audited.{
  Known, get_subscription-Known, publish_billing_event-Known,
}
use multi_agent_ai_system.Billing.Subscription.Started.{get_or_seed_plan-Known, raise_if-Known}
use multi_agent_ai_system.Billing.Subscription.Impact.{evaluate_plan_change_impact}
use multi_agent_ai_system.Billing.Subscription.PlanChange.{change_plan, write_change}

-- A status is a target of itself.
pub same_status : (t : String) → validate_subscription_transition t t ≡ ok tt
unfolding validate_subscription_transition validate_in
same_status t = ground (arith, eq_iff t t)

get_plan_by_code-Keeps : (I : Session → Type 0) (code : String) → Keeps I (get_plan_by_code code)
unfolding get_plan_by_code
get_plan_by_code-Keeps I code =
    bind-Keeps I _ _ (query-Keeps I (λ s. select (λ p. str_eq p.code (lower code)) s.view.plans))
      λ plan. or_raise-Keeps I plan _

-- Evaluating the impact of a change reads, and changes nothing.
pub impact-Keeps :
    (I : Session → Type 0) (tenant_id : ℕ) (code : String)
    → Keeps I (evaluate_plan_change_impact tenant_id code)
unfolding evaluate_plan_change_impact
impact-Keeps I tenant_id code =
    bind-Keeps I _ _ (get_plan_by_code-Keeps I code) λ plan. bind-Keeps I _ _ (λ s h. h) λ c s h. h

impact-Known :
    (sub : Subscription) (tenant_id : ℕ) (code : String)
    → Triple (Known sub) (evaluate_plan_change_impact tenant_id code) (λ _. Known sub) Audit
impact-Known sub tenant_id code =
    consequence (Known sub) (Known sub) (λ _. Known sub) (λ _. Known sub) (Known sub) Audit
      (evaluate_plan_change_impact tenant_id code) (λ s k. k) (λ _ s k. k) (λ s k. k.audit)
      (impact-Keeps (Known sub) tenant_id code)

write_change-Known :
    (tenant_id : ℕ) (sub changed : Subscription) (actor code : String)
    → changed.id ≡ sub.id
    → changed.status ≡ sub.status
    → Triple (Known sub) (write_change tenant_id sub changed actor code) (λ _. Known changed) Audit
unfolding write_change ◌>>=◌ ◌>>◌
write_change-Known tenant_id sub changed actor code id status s k =
    let h : SubscriptionHistory = record {
      subscription_id = sub.id;
      tenant_id = tenant_id;
      previous_plan_id = some sub.plan_id;
      new_plan_id = some changed.plan_id;
      previous_status = some sub.status;
      new_status = sub.status;
      actor = actor;
      reason = some (concat "Changed plan to " code);
    } in
    let hs = s.view.histories in
    let subs = s.view.subscriptions in
    let fine = same_status sub.status in
    let old : changed.id < s.next_id = rw id k.logged.1 in
    record {
      audit = record {
        view_ok =
            move-IsAudited hs s.next_id changed h subs (sym id) (sym status) fine k.audit.view_ok
              old;
        stored_ok = k.audit.stored_ok;
      };
      logged = move-IsLogged hs s.next_id changed h subs (sym id) (sym status) fine old;
    }

-- Changing the plan keeps the audit trail.
pub change_plan-Audit :
    (tenant_id : ℕ) (new_plan_code : String) (billing_cycle : Option String) (actor : String)
    (verified_payment : Bool)
    → Triple Audit
        (change_plan tenant_id new_plan_code billing_cycle actor verified_payment)
        Known
        Audit
unfolding change_plan ◌>>◌
change_plan-Audit tenant_id new_plan_code billing_cycle actor verified_payment =
    bind_rule Audit Known Known Audit _ _ (get_subscription-Known tenant_id) λ sub.
      bind_rule (Known sub) (λ _. Known sub) Known Audit _ _
        (get_or_seed_plan-Known (some sub) new_plan_code)
        λ plan.
          bind_rule (Known sub) (λ _. Known sub) Known Audit _ _ (raise_if-Known (some sub) _ _)
            λ _.
              bind_rule (Known sub) (λ _. Known sub) Known Audit _ _
                (impact-Known sub tenant_id new_plan_code)
                λ impact.
                  bind_rule (Known sub) (λ _. Known _) Known Audit _ _
                    (write_change-Known tenant_id sub _ actor new_plan_code refl refl)
                    λ _.
                      bind_rule (Known _) (λ _. Known _) Known Audit _ _
                        (publish_billing_event-Known _ _ _ _ _) λ _ s k. k
