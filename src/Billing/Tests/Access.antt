-- ===== src/Billing/Tests/Access.antt =====
-- Limits, add-ons and usage at the shop.
use multi_agent_ai_system.Prelude.{true, none, some, [], ◌∷◌, ◌≡◌, refl, inl, inr}
use multi_agent_ai_system.Prelude.Int.{pos, ◌+ℤ◌}
use multi_agent_ai_system.Core.Exceptions.{ok, ◌>>=◌}
use multi_agent_ai_system.Core.Triples.{Holds}
use multi_agent_ai_system.Billing.Models.{Addon}
use multi_agent_ai_system.Billing.Session.{Session}
use multi_agent_ai_system.Billing.Subscription.Lookup.{get_subscription, get_subscription_or_none}
use multi_agent_ai_system.Billing.Entitlement.{
  AccessState, add_grants, check_subscription_temporal_validity, get_limit, evaluate_metric_access,
  can_use, deny, get_active_tenant_addons,
}
use multi_agent_ai_system.Billing.Entitlement.Laws.{over-blocks}
use multi_agent_ai_system.Billing.Usage.{
  Request, check_and_increment_usage, get_current_period, usage_in, total_quantity,
}
use multi_agent_ai_system.Billing.Usage.Laws.{IsPermitted, check_and_increment_usage-exact}
use multi_agent_ai_system.Billing.Tests.{subscription_of, shop, shop_with}

abbrev more_messages : Addon
more_messages = record {
  id = 1;
  code = "more";
  feature_grant = [];
  limit_grant = ("messages", pos 50) ∷ [];
  is_active = true;
}

abbrev suspended_shop : Session
suspended_shop = shop_with "SUSPENDED"

over-blocks_example :
    (get_limit 20 7 "messages" suspended_shop ≡ (ok (pos 0), suspended_shop))
    × (evaluate_metric_access 20 7 "messages" (pos 3) suspended_shop
        ≡ (ok (deny AccessState.blocked "messages" (some (pos 0)) (some (pos 3))), suspended_shop))
    × (can_use 20 7 "messages" suspended_shop
        ≡ (ok (deny AccessState.blocked "messages" none none), suspended_shop))
over-blocks_example =
    over-blocks 20 7 3 "messages" (subscription_of "SUSPENDED") suspended_shop refl
      (inr (inr (inl refl)))

abbrev ten_messages : Request
ten_messages = record {
  tenant_id = 7;
  metric = "messages";
  quantity = pos 10;
  source = "chat";
  policy = "BLOCK";
}

check_and_increment_usage-exact_example :
    Holds
      (λ _ (s' : Session).
        ((usage_in 7 "messages" 10 90 s'.view ≡ pos 0 +ℤ pos 10) × (s'.stored ≡ s'.view))
        × IsPermitted ten_messages (pos 0) (pos 0 +ℤ pos 10) (pos 100) shop)
      (λ s'. s' ≡ shop)
      (check_and_increment_usage 20 ten_messages shop)
unfolding get_current_period get_subscription get_subscription_or_none get_limit
    get_active_tenant_addons add_grants check_subscription_temporal_validity total_quantity ◌>>=◌
check_and_increment_usage-exact_example =
    check_and_increment_usage-exact 20 ten_messages (10, 90) (pos 100) shop refl refl
