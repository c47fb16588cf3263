-- ===== src/Billing/Entitlement.antt =====
-- app/billing/entitlement.py: `EntitlementResolver`, without the texts that give a reason to people.
pub mod Laws
use multi_agent_ai_system.Prelude.{
  ℕ, ◌==◌, ltb, leb, String, str_eq, mem_str, lookup, Bool, true, false, not, ◌&&◌, ◌||◌, Option,
  none, some, List, [], ◌∷◌, ◌++◌, select, if◌then◌else◌,
}
use multi_agent_ai_system.Prelude.Int.{ℤ, pos, negsuc, ◌+ℤ◌, leb_ℤ, eq_ℤ}
use multi_agent_ai_system.Core.Exceptions.{Action, pure, gets, scalar_one_or_none, ◌>>=◌}
use multi_agent_ai_system.Billing.Models.{Subscription, PlanFeature, PlanLimit, Addon, TenantAddon}
use multi_agent_ai_system.Billing.Session.{Session, Database}
use multi_agent_ai_system.Billing.Catalogue.{trial_features, trial_limits}
use multi_agent_ai_system.Billing.Subscription.Lookup.{get_subscription_or_none}

-- `AccessState`
pub data AccessState : Type 0 where
  available enabled configured limited blocked : AccessState

pub record FeatureAccessResult : Type 0 where
  pub allowed : Bool
  pub state : AccessState
  pub feature_key : String
  pub limit : Option ℤ
  pub current_usage : Option ℤ

abbrev pub deny : AccessState → String → Option ℤ → Option ℤ → FeatureAccessResult
deny state key limit usage = record {
  allowed = false;
  state = state;
  feature_key = key;
  limit = limit;
  current_usage = usage;
}

abbrev grant : AccessState → String → Option ℤ → Option ℤ → FeatureAccessResult
grant state key limit usage = record {
  allowed = true;
  state = state;
  feature_key = key;
  limit = limit;
  current_usage = usage;
}

abbrev pub time_or : Option ℕ → ℕ → ℕ
time_or none d = d
time_or (some t) d = t

-- The end of a period is part of no period: at that time the subscription is over.
unfoldable pub check_subscription_temporal_validity : ℕ → Subscription → Bool
check_subscription_temporal_validity now sub =
    if mem_str sub.status ("EXPIRED" ∷ "ARCHIVED" ∷ "SUSPENDED" ∷ [])
    then false
    else if str_eq sub.status "TRIALING"
    then not (leb (time_or sub.trial_end sub.current_period_end) now)
    else if str_eq sub.status "CANCELLED_PENDING_EXPIRY"
    then not (leb sub.current_period_end now)
    else not (leb sub.current_period_end now)

-- `if start and now < start: continue` and `if end and now >= end: continue`
abbrev pub in_period : ℕ → TenantAddon → Bool
in_period now t =
    elim t.current_period_start [ none ↦ true | some start ↦ not (ltb now start) ]
    && elim t.current_period_end [ none ↦ true | some e ↦ not (leb e now) ]

active_addons : ℕ → ℕ → List TenantAddon → List Addon → List Addon
active_addons now tenant_id [] addons = []
active_addons now tenant_id (t ∷ ts) addons =
    let rest = active_addons now tenant_id ts addons in
    if t.tenant_id == tenant_id && (str_eq t.status "ACTIVE" && in_period now t)
    then select (λ a. a.id == t.addon_id && a.is_active) addons ++ rest
    else rest

unfoldable pub get_active_tenant_addons : ℕ → ℕ → Session → List Addon
unfolding active_addons
get_active_tenant_addons now tenant_id s =
    active_addons now tenant_id s.view.tenant_addons s.view.addons

-- The loop over the add-ons: -1 stands for no limit, and ends it.
unfoldable pub add_grants : List Addon → String → ℤ → ℤ
add_grants [] metric base = base
add_grants (a ∷ addons) metric base =
    let rest = λ (more : ℤ). add_grants addons metric more in
    elim (lookup metric a.limit_grant) [
      | none ↦ rest base
      | some more ↦ if eq_ℤ more (negsuc 0) then negsuc 0 else rest (base +ℤ more)
    ]

abbrev limit_or_zero : Option ℤ → ℤ
limit_or_zero none = pos 0
limit_or_zero (some v) = v

abbrev pub plan_limit : ℕ → String → Action Session ℤ
plan_limit plan_id metric = do
  row ← λ s.
      scalar_one_or_none
        (select (λ l. l.plan_id == plan_id && str_eq l.metric metric) s.view.plan_limits) s
  pure (elim row [ none ↦ pos 0 | some l ↦ l.limit_value ])

abbrev base_limit : Subscription → String → Action Session ℤ
base_limit sub metric =
    if str_eq sub.status "TRIALING"
    then pure (limit_or_zero (lookup metric trial_limits))
    else plan_limit sub.plan_id metric

abbrev limit_of_valid : ℕ → ℕ → Subscription → String → Action Session ℤ
limit_of_valid now tenant_id sub metric = do
  base ← base_limit sub metric
  addons ← gets (get_active_tenant_addons now tenant_id)
  pure (if eq_ℤ base (negsuc 0) then negsuc 0 else add_grants addons metric base)

abbrev limit_for : ℕ → ℕ → Option Subscription → String → Action Session ℤ
limit_for now tenant_id none metric = pure (pos 0)
limit_for now tenant_id (some sub) metric =
    if check_subscription_temporal_validity now sub
    then limit_of_valid now tenant_id sub metric
    else pure (pos 0)

unfoldable pub get_limit : ℕ → ℕ → String → Action Session ℤ
unfolding get_active_tenant_addons add_grants check_subscription_temporal_validity
get_limit now tenant_id metric = do
  sub ← get_subscription_or_none tenant_id
  limit_for now tenant_id sub metric

abbrev pub allowed_restricted : List String
allowed_restricted = "admin_inbox" ∷ "ai_customer_service" ∷ "human_handoff" ∷ []

abbrev plan_feature : ℕ → String → Action Session Bool
plan_feature plan_id key = do
  row ← λ s.
      scalar_one_or_none
        (select (λ f. f.plan_id == plan_id && str_eq f.feature_key key) s.view.plan_features) s
  pure (elim row [ none ↦ false | some f ↦ f.is_enabled ])

abbrev base_feature : Subscription → String → Action Session Bool
base_feature sub key =
    if str_eq sub.status "TRIALING"
    then pure (mem_str key trial_features)
    else plan_feature sub.plan_id key

pub granted_by_addon : List Addon → String → Bool
granted_by_addon [] key = false
granted_by_addon (a ∷ addons) key =
    let rest = granted_by_addon addons key in
    elim (lookup key a.feature_grant) [ some true ↦ true | _ ↦ rest ]

abbrev feature_of_valid : ℕ → ℕ → Subscription → String → Action Session FeatureAccessResult
feature_of_valid now tenant_id sub key = do
  included ← base_feature sub key
  addons ← gets (get_active_tenant_addons now tenant_id)
  pure (
      if included || granted_by_addon addons key
      then grant AccessState.enabled key none none
      else deny AccessState.blocked key none none)

-- A restricted subscription has the features of the short list only.
abbrev pub is_restricted_away : Subscription → String → Bool
is_restricted_away sub key = str_eq sub.status "RESTRICTED" && not (mem_str key allowed_restricted)

abbrev access_for : ℕ → ℕ → Option Subscription → String → Action Session FeatureAccessResult
access_for now tenant_id none key = pure (deny AccessState.blocked key none none)
access_for now tenant_id (some sub) key =
    if not (check_subscription_temporal_validity now sub)
    then pure (deny AccessState.blocked key none none)
    else if is_restricted_away sub key
    then pure (deny AccessState.blocked key none none)
    else feature_of_valid now tenant_id sub key

unfoldable pub can_use : ℕ → ℕ → String → Action Session FeatureAccessResult
unfolding get_active_tenant_addons granted_by_addon check_subscription_temporal_validity
can_use now tenant_id key = do
  sub ← get_subscription_or_none tenant_id
  access_for now tenant_id sub key

unfoldable pub has_feature : ℕ → ℕ → String → Action Session Bool
unfolding can_use
has_feature now tenant_id key = do res ← can_use now tenant_id key; pure res.allowed

-- What a limit allows at a usage: none at 0, all at -1, else what is below it.
unfoldable pub access_at : ℤ → String → ℤ → FeatureAccessResult
access_at limit metric usage =
    if eq_ℤ limit (negsuc 0)
    then grant AccessState.available metric (some (negsuc 0)) (some usage)
    else if eq_ℤ limit (pos 0)
    then deny AccessState.blocked metric (some (pos 0)) (some usage)
    else if leb_ℤ limit usage
    then deny AccessState.limited metric (some limit) (some usage)
    else grant AccessState.available metric (some limit) (some usage)

unfoldable pub evaluate_metric_access : ℕ → ℕ → String → ℤ → Action Session FeatureAccessResult
unfolding access_at get_limit
evaluate_metric_access now tenant_id metric current_usage = do
  limit ← get_limit now tenant_id metric
  pure (access_at limit metric current_usage)
