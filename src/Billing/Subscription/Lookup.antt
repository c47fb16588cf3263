-- ===== src/Billing/Subscription/Lookup.antt =====
-- Reading a tenant's subscription, and the one method that moves its status.
use Prim.Native.String.{◌++◌ as concat}
use multi_agent_ai_system.Prelude.{ℕ, ◌*◌, ◌==◌, String, Option, none, some, List, select}
use multi_agent_ai_system.Prelude.Text.{lower}
use multi_agent_ai_system.Prelude.Json.{Json, null, str, id_text, end, entry}
use multi_agent_ai_system.Core.Exceptions.{
  Exception, app_exception, Action, pure, lift, scalar_one_or_none, or_raise, ◌>>=◌, ◌>>◌,
}
use multi_agent_ai_system.Billing.Models.{Subscription, SubscriptionHistory}
use multi_agent_ai_system.Billing.Session.{
  Session, save_subscription, add_history, publish_billing_event,
}
use multi_agent_ai_system.Billing.Status.{validate_subscription_transition}

-- `timedelta(days=n)`
abbrev pub days : ℕ → ℕ
days n = n * 86400000000

abbrev pub subscription_not_found : Exception
subscription_not_found = app_exception "SUBSCRIPTION_NOT_FOUND" 404

unfoldable pub get_subscription_or_none : ℕ → Action Session (Option Subscription)
get_subscription_or_none tenant_id s =
    scalar_one_or_none (select (λ r. r.tenant_id == tenant_id) s.view.subscriptions) s

unfoldable pub get_subscription : ℕ → Action Session Subscription
unfolding get_subscription_or_none
get_subscription tenant_id = do
  or_raise (← get_subscription_or_none tenant_id) subscription_not_found

unfoldable pub get_subscription_history : ℕ → Session → List SubscriptionHistory
get_subscription_history tenant_id s = select (λ h. h.tenant_id == tenant_id) s.view.histories

abbrev pub optional : Option String → Json
optional none = null
optional (some t) = str t

-- `_transition_subscription_status`, which returns the subscription in its new status
unfoldable pub transition_subscription_status :
    Subscription → String → String → Option String → Action Session Subscription
unfolding lower
transition_subscription_status sub target_status actor reason = do
  lift (validate_subscription_transition sub.status target_status)
  let moved = record sub { status = target_status }
  save_subscription moved
  add_history (record {
    subscription_id = sub.id;
    tenant_id = sub.tenant_id;
    previous_plan_id = some sub.plan_id;
    new_plan_id = some sub.plan_id;
    previous_status = some sub.status;
    new_status = target_status;
    actor = actor;
    reason = reason;
  })
  publish_billing_event (concat "subscription." (lower target_status)) sub.tenant_id
      (entry "subscription_id" (id_text sub.id) (
        entry "previous_status" (str sub.status)
          (entry "new_status" (str target_status) (entry "reason" (optional reason) end))))
      "subscription_service"
  pure moved
