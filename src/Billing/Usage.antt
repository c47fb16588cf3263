-- ===== src/Billing/Usage.antt =====
-- app/billing/usage.py: `UsageService`. The ratios of a usage to a limit are compared as fractions: the
-- floating-point quotients of the source agree with them for limits below 10 ^ 15.
pub mod Laws
use multi_agent_ai_system.Prelude.{
  ℕ, ◌/◌, leb, ◌==◌, String, str_eq, Bool, true, false, not, ◌&&◌, ◌||◌, Option, none, some, List,
  [], ◌∷◌, ◌++◌, select, if◌then◌else◌,
}
use multi_agent_ai_system.Prelude.Int.{ℤ, pos, negsuc, ◌+ℤ◌, ◌*ℤ◌, ltb_ℤ, leb_ℤ, eq_ℤ}
use multi_agent_ai_system.Prelude.Json.{Json, str, num, boolean, Dict, end, entry}
use multi_agent_ai_system.Core.Exceptions.{
  Exception, app_exception, Action, pure, raise, raise_if, gets, ◌>>=◌, ◌>>◌,
}
use multi_agent_ai_system.Billing.Models.{UsageRecord}
use multi_agent_ai_system.Billing.Session.{Session, Database, change, commit, publish_billing_event}
use multi_agent_ai_system.Billing.Subscription.Lookup.{get_subscription}
use multi_agent_ai_system.Billing.Entitlement.{get_limit}

abbrev pub tokens_per_ai_credit : ℕ
tokens_per_ai_credit = 10

abbrev at_least_one : ℕ → ℕ
at_least_one n = if leb 1 n then n else 1

-- No tokens, or none that are counted, are one credit.
unfoldable pub calculate_ai_credits : Option ℤ → ℕ
calculate_ai_credits none = 1
calculate_ai_credits (some (negsuc n)) = 1
calculate_ai_credits (some (pos n)) = if n == 0 then 1 else at_least_one (n / tokens_per_ai_credit)

unfoldable pub get_current_period : ℕ → Action Session (ℕ × ℕ)
get_current_period tenant_id = do
  sub ← get_subscription tenant_id
  pure (sub.current_period_start, sub.current_period_end)

unfoldable pub total_quantity : List UsageRecord → ℤ
total_quantity [] = pos 0
total_quantity (r ∷ rs) = r.quantity +ℤ total_quantity rs

-- The records of a metric that lie in a period.
abbrev pub counted : ℕ → String → ℕ → ℕ → UsageRecord → Bool
counted tenant_id metric period_start period_end r =
    r.tenant_id == tenant_id
    && (str_eq r.metric metric && (leb period_start r.period_start && leb r.period_end period_end))

abbrev pub usage_in : ℕ → String → ℕ → ℕ → Database → ℤ
usage_in tenant_id metric period_start period_end d =
    total_quantity (select (counted tenant_id metric period_start period_end) d.usage_records)

unfoldable pub get_current_usage : ℕ → String → Action Session ℤ
unfolding total_quantity get_current_period
get_current_usage tenant_id metric = do
  period ← get_current_period tenant_id
  gets (λ s. usage_in tenant_id metric period.0 period.1 s.view)

abbrev pub limit_exceeded : Exception
limit_exceeded = app_exception "LIMIT_EXCEEDED" 429

-- What a call was asked to record, and what it found.
pub record Request : Type 0 where
  pub tenant_id : ℕ
  pub metric : String
  pub quantity : ℤ
  pub source : String
  pub policy : String

abbrev overage_payload : Request → ℤ → ℤ → ℤ → Dict → Dict
overage_payload q current projected limit more = entry "metric" (str q.metric) (
    entry "policy" (str q.policy) (
      entry "current_usage" (num current)
        (entry "projected_usage" (num projected) (entry "limit" (num limit) more))))

-- The policy for a usage beyond the limit.
over_limit : Request → ℤ → ℤ → ℤ → Action Session (Unit {0})
over_limit q current projected limit =
    if str_eq q.policy "BLOCK"
    then raise limit_exceeded
    else if str_eq q.policy "WARN"
    then publish_billing_event "usage.warning" q.tenant_id
        (overage_payload q current projected limit
          (entry "threshold_percentage" (num (pos 100)) end))
        "usage_service"
    else if str_eq q.policy "ALLOW" || str_eq q.policy "APPROVED_OVERAGE"
    then publish_billing_event "usage.overage_allowed" q.tenant_id
        (overage_payload q current projected limit end) "usage_service"
    else if str_eq q.policy "DEGRADE"
    then publish_billing_event "usage.degraded" q.tenant_id
        (overage_payload q current projected limit (entry "degraded_mode" (boolean true) end))
        "usage_service"
    else raise Exception.value_error

abbrev pub is_over : ℤ → ℤ → Bool
is_over projected limit = not (eq_ℤ limit (negsuc 0)) && ltb_ℤ limit projected

check_policy : Request → ℤ → ℤ → ℤ → Action Session (Unit {0})
unfolding over_limit
check_policy q current projected limit =
    if is_over projected limit then over_limit q current projected limit else pure tt

-- `prev_ratio < n / 100 <= new_ratio`
abbrev pub crosses : ℕ → ℤ → ℤ → ℤ → Bool
crosses n current projected limit =
    ltb_ℤ (pos 100 *ℤ current) (pos n *ℤ limit) && leb_ℤ (pos n *ℤ limit) (pos 100 *ℤ projected)

threshold : Request → ℤ → ℤ → ℤ → ℕ → String → Action Session (Unit {0})
threshold q current projected limit n event_type =
    if crosses n current projected limit
    then publish_billing_event event_type q.tenant_id
        (entry "metric" (str q.metric) (
          entry "threshold_percentage" (num (pos n))
            (entry "current_usage" (num projected) (entry "limit" (num limit) end))))
        "usage_service"
    else pure tt

thresholds : Request → ℤ → ℤ → ℤ → Action Session (Unit {0})
unfolding threshold
thresholds q current projected limit =
    if ltb_ℤ (pos 0) limit
    then threshold q current projected limit 70 "usage.warning"
      >> (threshold q current projected limit 85 "usage.warning"
          >> threshold q current projected limit 100 "usage.limit_reached")
    else pure tt

-- The row that is recorded
abbrev usage_row : Request → ℕ × ℕ → UsageRecord
usage_row q period = record {
  tenant_id = q.tenant_id;
  metric = q.metric;
  period_start = period.0;
  period_end = period.1;
  quantity = q.quantity;
  source = q.source;
}

add_usage : UsageRecord → Action Session (Unit {0})
add_usage row = do change (λ d. record d { usage_records = d.usage_records ++ row ∷ [] }); commit

-- The part of `check_and_increment_usage` after its three reads.
record_usage : Request → ℕ × ℕ → ℤ → ℤ → Action Session UsageRecord
unfolding check_policy add_usage thresholds
record_usage q period limit current_usage = do
  let projected_usage = current_usage +ℤ q.quantity
  check_policy q current_usage projected_usage limit
  add_usage (usage_row q period)
  thresholds q current_usage projected_usage limit
  pure (usage_row q period)

unfoldable pub check_and_increment_usage : ℕ → Request → Action Session UsageRecord
unfolding record_usage
check_and_increment_usage now q = do
  period ← get_current_period q.tenant_id
  limit ← get_limit now q.tenant_id q.metric
  current_usage ← get_current_usage q.tenant_id q.metric
  record_usage q period limit current_usage
