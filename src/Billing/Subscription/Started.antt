-- ===== src/Billing/Subscription/Started.antt =====
-- The audit trail through the methods that look up a plan: trials, activations and plan changes.
use Prim.Native.String.{◌++◌ as concat}
use multi_agent_ai_system.Prelude.{
  ℕ, suc, String, Bool, true, false, Option, none, some, List, refl, inl, inr, ◌+◌, arith,
}
use multi_agent_ai_system.Core.Exceptions.{Exception, Result-cases, raise_if, ◌>>=◌, ◌>>◌}
use multi_agent_ai_system.Core.Triples.{Triple, bind_rule, consequence}
use multi_agent_ai_system.Billing.Models.{Plan, Subscription, SubscriptionHistory, Payment}
use multi_agent_ai_system.Billing.Session.{Session, Database}
use multi_agent_ai_system.Billing.Status.{validate_subscription_transition}
use multi_agent_ai_system.Billing.Subscription.Lookup.{days}
use multi_agent_ai_system.Billing.Plans.{get_or_seed_plan}
use multi_agent_ai_system.Billing.Plans.Frame.{get_or_seed_plan-Kept}
use multi_agent_ai_system.Billing.Subscription.Audit.{
  IsLogged, IsAudited, Audit, move-IsAudited, add-IsAudited, move-IsLogged, more-IsAudited,
}
use multi_agent_ai_system.Billing.Subscription.Audited.{
  Known, KnownOr, get_subscription_or_none-Known, publish_billing_event-Known,
}
use multi_agent_ai_system.Billing.Subscription.Trial.{
  trial_row, begin_trial, start_trial, keep_or_start, create_trial_subscription,
}
use multi_agent_ai_system.Billing.Subscription.Activation.{
  new_row, activated, activate_row, activate_subscription, log_activation, Terms,
}

LoggedOr : Option Subscription → List SubscriptionHistory → ℕ → Type 0
LoggedOr none hs n = Unit
LoggedOr (some r) hs n = IsLogged hs n r

-- What the plan service has to keep, by the parts that it sees.
Parts :
    Option Subscription
    → List Subscription
    → List SubscriptionHistory
    → List Payment
    → Database
    → ℕ
    → Type 0
Parts o subs hs ps d n =
    (IsAudited subs hs n × IsAudited d.subscriptions d.histories n) × LoggedOr o hs n

later-Logged :
    (o : Option Subscription) (hs : List SubscriptionHistory) (n : ℕ)
    → LoggedOr o hs n
    → LoggedOr o hs (suc n)
unfolding LoggedOr
later-Logged none hs n l = tt
later-Logged (some r) hs n l = (l.0, omega arith)

later-Parts :
    (o : Option Subscription) (subs : List Subscription) (hs : List SubscriptionHistory)
    (ps : List Payment) (d : Database) (n : ℕ)
    → Parts o subs hs ps d n
    → Parts o subs hs ps d (suc n)
unfolding Parts
later-Parts o subs hs ps d n p = (
  (more-IsAudited subs hs n p.0.0, more-IsAudited d.subscriptions d.histories n p.0.1),
  later-Logged o hs n p.1,
)

of_known :
    (o : Option Subscription) (s : Session)
    → KnownOr o s
    → Parts o s.view.subscriptions s.view.histories s.view.payments s.stored s.next_id
unfolding Parts LoggedOr
of_known none s a = ((a.view_ok, a.stored_ok), tt)
of_known (some r) s k = ((k.audit.view_ok, k.audit.stored_ok), k.logged)

to_known :
    (o : Option Subscription) (s : Session)
    → Parts o s.view.subscriptions s.view.histories s.view.payments s.stored s.next_id
    → KnownOr o s
unfolding Parts LoggedOr
to_known none s p = record { view_ok = p.0.0; stored_ok = p.0.1 }
to_known (some r) s p = record {
  audit = record { view_ok = p.0.0; stored_ok = p.0.1 };
  logged = p.1;
}

known-Audit : (o : Option Subscription) (s : Session) → KnownOr o s → Audit s
known-Audit none s a = a
known-Audit (some r) s k = k.audit

pub get_or_seed_plan-Known :
    (o : Option Subscription) (code : String)
    → Triple (KnownOr o) (get_or_seed_plan code) (λ _. KnownOr o) Audit
get_or_seed_plan-Known o code =
    consequence _ (KnownOr o) _ (λ _. KnownOr o) _ Audit (get_or_seed_plan code) (of_known o)
      (λ _. to_known o) (λ s p. known-Audit o s (to_known o s p))
      (get_or_seed_plan-Kept (Parts o) (later-Parts o) code)

begin_trial-Known :
    (now tenant_id trial_days : ℕ) (plan : Plan)
    → Triple Audit (begin_trial now tenant_id trial_days plan) Known Audit
unfolding begin_trial ◌>>=◌ ◌>>◌
begin_trial-Known now tenant_id trial_days plan s a =
    let sub : Subscription = trial_row s.next_id tenant_id plan now (now + days trial_days) in
    let h : SubscriptionHistory = record {
      subscription_id = s.next_id;
      tenant_id = tenant_id;
      previous_plan_id = none;
      new_plan_id = some plan.id;
      previous_status = none;
      new_status = "TRIALING";
      actor = "SYSTEM";
      reason = some "Created 7-day trial subscription";
    } in
    let hs = s.view.histories in
    let subs = s.view.subscriptions in
    record {
      audit = record {
        view_ok = add-IsAudited hs s.next_id sub h subs refl refl tt a.view_ok refl;
        stored_ok = more-IsAudited s.stored.subscriptions s.stored.histories s.next_id a.stored_ok;
      };
      logged = move-IsLogged hs (suc s.next_id) sub h subs refl refl tt (omega arith);
    }

keep_or_start-Known :
    (existing : Option Subscription) (now tenant_id trial_days : ℕ)
    → Triple (KnownOr existing) (keep_or_start existing now tenant_id trial_days) Known Audit
unfolding keep_or_start start_trial
keep_or_start-Known none now tenant_id trial_days =
    bind_rule Audit (λ _. Audit) Known Audit _ _ (get_or_seed_plan-Known none "starter")
      λ plan. begin_trial-Known now tenant_id trial_days plan
keep_or_start-Known (some existing) now tenant_id trial_days = λ s k. k

-- Creating a trial keeps the audit trail.
pub create_trial_subscription-Audit :
    (now tenant_id trial_days : ℕ)
    → Triple Audit (create_trial_subscription now tenant_id trial_days) Known Audit
unfolding create_trial_subscription
create_trial_subscription-Audit now tenant_id trial_days =
    bind_rule Audit KnownOr Known Audit _ _ (get_subscription_or_none-Known tenant_id)
      λ existing. keep_or_start-Known existing now tenant_id trial_days

-- The row of an activation, new or changed, comes with the history row of its status.
activate_row-Known :
    (existing : Option Subscription) (tenant_id : ℕ) (t : Terms) (plan_code actor : String)
    → Triple (KnownOr existing) (activate_row existing tenant_id t plan_code actor) Known Audit
unfolding activate_row log_activation ◌>>=◌ ◌>>◌
activate_row-Known none tenant_id t plan_code actor s a =
    let sub : Subscription = new_row s.next_id tenant_id t in
    let h : SubscriptionHistory = record {
      subscription_id = s.next_id;
      tenant_id = tenant_id;
      previous_plan_id = none;
      new_plan_id = some t.plan.id;
      previous_status = none;
      new_status = "ACTIVE";
      actor = actor;
      reason = some (concat "Activated paid " (concat plan_code " subscription"));
    } in
    let hs = s.view.histories in
    let subs = s.view.subscriptions in
    record {
      audit = record {
        view_ok = add-IsAudited hs s.next_id sub h subs refl refl tt a.view_ok refl;
        stored_ok = more-IsAudited s.stored.subscriptions s.stored.histories s.next_id a.stored_ok;
      };
      logged = move-IsLogged hs (suc s.next_id) sub h subs refl refl tt (omega arith);
    }
activate_row-Known (some old) tenant_id t plan_code actor s k =
    let sub : Subscription = activated old t in
    let h : SubscriptionHistory = record {
      subscription_id = old.id;
      tenant_id = tenant_id;
      previous_plan_id = some old.plan_id;
      new_plan_id = some t.plan.id;
      previous_status = some old.status;
      new_status = "ACTIVE";
      actor = actor;
      reason = some (concat "Activated paid " (concat plan_code " subscription"));
    } in
    let hs = s.view.histories in
    let subs = s.view.subscriptions in
    elim (Result-cases (validate_subscription_transition old.status "ACTIVE")) [
      | inl fine ↦ rw fine (record {
        audit = record {
          view_ok =
              move-IsAudited hs s.next_id sub h subs refl refl fine k.audit.view_ok k.logged.1;
          stored_ok = k.audit.stored_ok;
        };
        logged = move-IsLogged hs s.next_id sub h subs refl refl fine k.logged.1;
      })
      | inr (e, refused) ↦ rw refused k.audit
    ]

pub raise_if-Known :
    (o : Option Subscription) (b : Bool) (e : Exception)
    → Triple (KnownOr o) (raise_if b e) (λ _. KnownOr o) Audit
raise_if-Known o false e s k = k
raise_if-Known o true e s k = known-Audit o s k

-- Activating a plan keeps the audit trail.
pub activate_subscription-Audit :
    (now tenant_id : ℕ) (plan_code billing_cycle actor : String) (verified_payment : Bool)
    → Triple Audit
        (activate_subscription now tenant_id plan_code billing_cycle actor verified_payment)
        Known
        Audit
unfolding activate_subscription ◌>>◌
activate_subscription-Audit now tenant_id plan_code billing_cycle actor verified_payment =
    bind_rule Audit KnownOr Known Audit _ _ (get_subscription_or_none-Known tenant_id) λ old.
      bind_rule (KnownOr old) (λ _. KnownOr old) Known Audit _ _
        (get_or_seed_plan-Known old plan_code)
        λ plan.
          bind_rule (KnownOr old) (λ _. KnownOr old) Known Audit _ _ (raise_if-Known old _ _)
            λ _.
              bind_rule (KnownOr old) Known Known Audit _ _
                (activate_row-Known old tenant_id _ plan_code actor)
                λ sub.
                  bind_rule (Known sub) (λ _. Known sub) Known Audit _ _
                    (publish_billing_event-Known sub _ _ _ _) λ _ s k. k
