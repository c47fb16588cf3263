-- ===== src/Billing/Subscription/Impact.antt =====
-- `evaluate_plan_change_impact`: what a tenant uses against the limits of another plan.
use multi_agent_ai_system.Prelude.{
  ℕ, ◌==◌, String, str_eq, mem_str, length, select, Bool, true, false, not, ◌&&◌, ltb, List, [],
  ◌∷◌, ◌++◌, map, if◌then◌else◌,
}
use multi_agent_ai_system.Prelude.Int.{ℤ, pos, negsuc, ltb_ℤ, eq_ℤ}
use multi_agent_ai_system.Core.Exceptions.{Action, pure, gets, ◌>>=◌}
use multi_agent_ai_system.Billing.Models.{Plan, PlanFeature, PlanLimit}
use multi_agent_ai_system.Billing.Session.{Session, Database}
use multi_agent_ai_system.Billing.Plans.{get_plan_by_code}

-- A conflict without its text for people.
pub record Conflict : Type 0 where
  pub metric : String
  pub current : ℕ
  pub limit : ℤ

pub record Impact : Type 0 where
  pub target_plan : String
  pub has_conflicts : Bool
  pub conflicts : List Conflict

-- `target_limits.get(metric, -1)`, where a later row of a metric covers an earlier one
abbrev pub limit_of : ℕ → String → List PlanLimit → ℤ → ℤ
limit_of plan_id metric [] found = found
limit_of plan_id metric (l ∷ ls) found =
    limit_of plan_id metric ls
      (if l.plan_id == plan_id && str_eq l.metric metric then l.limit_value else found)

abbrev pub enabled_features : ℕ → List PlanFeature → List String
enabled_features plan_id fs =
    map (λ f. f.feature_key) (select (λ f. f.plan_id == plan_id && f.is_enabled) fs)

-- `if lim != -1 and current > lim`
abbrev pub check_limit : String → ℕ → ℤ → List Conflict
check_limit metric current limit =
    if not (eq_ℤ limit (negsuc 0)) && ltb_ℤ limit (pos current)
    then record { metric = metric; current = current; limit = limit } ∷ []
    else []

abbrev pub check_workflows : ℕ → List String → List Conflict
check_workflows active features =
    if ltb 0 active && not (mem_str "workflow_builder" features)
    then record { metric = "active_workflows"; current = active; limit = pos 0 } ∷ []
    else []

active_admins : ℕ → Database → ℕ
active_admins tenant_id d = length (select (λ u. u.tenant_id == tenant_id && u.is_active) d.users)

active_connections : ℕ → Database → ℕ
active_connections tenant_id d =
    length
      (select (λ c. c.tenant_id == tenant_id && str_eq c.status "ACTIVE") d.integration_connections)

total_customers : ℕ → Database → ℕ
total_customers tenant_id d = length (select (λ c. c.tenant_id == tenant_id) d.customers)

active_workflows : ℕ → Database → ℕ
active_workflows tenant_id d =
    length (select (λ w. w.tenant_id == tenant_id && w.is_active) d.workflow_configurations)

conflicts_with : ℕ → Plan → Database → List Conflict
unfolding active_admins active_connections total_customers active_workflows
conflicts_with tenant_id plan d =
    check_limit "admins" (active_admins tenant_id d)
      (limit_of plan.id "admins" d.plan_limits (negsuc 0))
    ++ (check_limit "whatsapp_connections" (active_connections tenant_id d)
          (limit_of plan.id "whatsapp_connections" d.plan_limits (negsuc 0))
        ++ (check_limit "active_customers" (total_customers tenant_id d)
              (limit_of plan.id "active_customers" d.plan_limits (negsuc 0))
            ++ check_workflows (active_workflows tenant_id d)
                (enabled_features plan.id d.plan_features)))

abbrev pub is_nonempty : List Conflict → Bool
is_nonempty [] = false
is_nonempty (_ ∷ _) = true

unfoldable pub evaluate_plan_change_impact : ℕ → String → Action Session Impact
unfolding conflicts_with
evaluate_plan_change_impact tenant_id target_plan_code = do
  target_plan ← get_plan_by_code target_plan_code
  conflicts ← gets (λ s. conflicts_with tenant_id target_plan s.view)
  pure (record {
    target_plan = target_plan_code;
    has_conflicts = is_nonempty conflicts;
    conflicts = conflicts;
  })
