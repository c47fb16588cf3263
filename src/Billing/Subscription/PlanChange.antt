-- ===== src/Billing/Subscription/PlanChange.antt =====
-- `change_plan`: another plan for a subscription in whatever status it is.
use Prim.Native.String.{◌++◌ as concat}
use multi_agent_ai_system.Prelude.{
  ℕ, String, Bool, true, not, ◌&&◌, Option, none, some, List, [], ◌∷◌, if◌then◌else◌,
}
use multi_agent_ai_system.Prelude.Text.{upper}
use multi_agent_ai_system.Prelude.Int.{pos, ltb_ℤ}
use multi_agent_ai_system.Prelude.Json.{
  str, num, boolean, id_text, amount_text, arr, obj, Items, nil, cons, Dict, end, entry, put, pop,
  or_empty,
}
use multi_agent_ai_system.Core.Exceptions.{Action, pure, raise_if, ◌>>=◌, ◌>>◌}
use multi_agent_ai_system.Billing.Models.{Subscription}
use multi_agent_ai_system.Billing.Session.{
  Session, save_subscription, add_history, publish_billing_event,
}
use multi_agent_ai_system.Billing.Plans.{calculate_billed_amount, get_or_seed_plan}
use multi_agent_ai_system.Billing.Subscription.Lookup.{get_subscription}
use multi_agent_ai_system.Billing.Subscription.Activation.{payment_verification_required}
use multi_agent_ai_system.Billing.Subscription.Impact.{
  Conflict, Impact, evaluate_plan_change_impact,
}

abbrev pub conflict_items : List Conflict → Items
conflict_items [] = nil
conflict_items (c ∷ cs) =
    cons
      (obj (
        entry "metric" (str c.metric)
          (entry "current" (num (pos c.current)) (entry "limit" (num c.limit) end))))
      (conflict_items cs)

-- The subscription's metadata after the change: conflicts restrict it, and their absence lifts that.
abbrev pub restrict_metadata : Impact → Dict → Dict
restrict_metadata impact meta =
    if impact.has_conflicts
    then put "restricted_mode" (boolean true)
        (put "downgrade_conflicts" (arr (conflict_items impact.conflicts)) meta)
    else pop "restricted_mode" (pop "downgrade_conflicts" meta)

-- `billing_cycle.upper() if billing_cycle else sub.billing_cycle`
abbrev pub cycle_or : Option String → String → String
cycle_or none old = old
cycle_or (some String.[]) old = old
cycle_or (some (String.◌∷◌ c cs)) old = upper (String.◌∷◌ c cs)

-- `session.add(sub)` and the history row, whose status stays as it is.
unfoldable pub write_change :
    ℕ → Subscription → Subscription → String → String → Action Session (Unit {0})
write_change tenant_id sub changed actor new_plan_code = do
  save_subscription changed
  add_history (record {
    subscription_id = sub.id;
    tenant_id = tenant_id;
    previous_plan_id = some sub.plan_id;
    new_plan_id = some changed.plan_id;
    previous_status = some sub.status;
    new_status = sub.status;
    actor = actor;
    reason = some (concat "Changed plan to " new_plan_code);
  })

unfoldable pub change_plan :
    ℕ → String → Option String → String → Bool → Action Session Subscription
unfolding write_change
change_plan tenant_id new_plan_code billing_cycle actor verified_payment = do
  sub ← get_subscription tenant_id
  new_plan ← get_or_seed_plan new_plan_code
  let cycle = cycle_or billing_cycle sub.billing_cycle
  let billed_amount = calculate_billed_amount new_plan.price_monthly cycle
  raise_if (ltb_ℤ (pos 0) billed_amount && not verified_payment) payment_verification_required
  impact ← evaluate_plan_change_impact tenant_id new_plan_code
  let changed = record sub {
    plan_id = new_plan.id;
    billing_cycle = cycle;
    amount = billed_amount;
    metadata_ = some (restrict_metadata impact (or_empty sub.metadata_));
  }
  write_change tenant_id sub changed actor new_plan_code
  publish_billing_event "subscription.updated" tenant_id
      (entry "subscription_id" (id_text sub.id) (
        entry "new_plan_code" (str new_plan.code) (
          entry "billing_cycle" (str cycle) (
            entry "amount" (amount_text billed_amount) (
              entry "has_conflicts" (boolean impact.has_conflicts)
                (entry "conflicts" (arr (conflict_items impact.conflicts)) end))))))
      "subscription_service"
  pure changed
