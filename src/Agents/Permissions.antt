-- ===== src/Agents/Permissions.antt =====
-- app/agents/base/permissions.py: the tools that each agent may call.
use multi_agent_ai_system.Prelude.{
  String, mem_str, lookup, Bool, true, false, none, some, List, [], ◌∷◌,
}

pub record Permissions : Type 0 where
  pub allowed_tools : List String
  pub forbidden_actions : List String
  pub read_only : Bool

abbrev owner_ai_permissions : Permissions
owner_ai_permissions = record {
  allowed_tools =
      "evaluate_business_health" ∷ "evaluate_client_health" ∷ "get_memory_context"
      ∷ "delegate_task_to_agent" ∷ "create_orchestration_task" ∷ "route_approval_request"
      ∷ "generate_daily_brief" ∷ "generate_weekly_review" ∷ "create_recommendation" ∷ [];
  forbidden_actions =
      "self_approve_high_risk" ∷ "change_security_policy" ∷ "change_platform_policy"
      ∷ "delete_critical_data" ∷ "change_official_price_unauthorized" ∷ "issue_refund_unauthorized"
      ∷ "direct_db_mutation" ∷ [];
  read_only = false;
}

abbrev ai_sales_permissions : Permissions
ai_sales_permissions = record {
  allowed_tools =
      "get_products" ∷ "get_pricing" ∷ "get_stock" ∷ "get_customer_conversation"
      ∷ "create_followup_task" ∷ "recommend_product" ∷ "recommend_discount" ∷ [];
  forbidden_actions =
      "change_official_price" ∷ "approve_discount" ∷ "issue_refund" ∷ "direct_db_mutation" ∷ [];
  read_only = false;
}

abbrev ai_client_manager_permissions : Permissions
ai_client_manager_permissions = record {
  allowed_tools =
      "get_client_onboarding_state" ∷ "calculate_readiness" ∷ "get_tenant_configuration"
      ∷ "create_onboarding_task" ∷ "list_onboarding_tasks" ∷ "recommend_configuration"
      ∷ "request_configuration_change" ∷ [];
  forbidden_actions = "change_critical_config" ∷ "bypass_approvals" ∷ "invent_client_data" ∷ [];
  read_only = false;
}

abbrev ai_support_permissions : Permissions
ai_support_permissions = record {
  allowed_tools =
      "get_system_health" ∷ "get_whatsapp_status" ∷ "get_workflow_status" ∷ "get_integration_status"
      ∷ "get_task_status" ∷ "create_support_incident_task" ∷ "execute_low_risk_remediation" ∷ [];
  forbidden_actions =
      "critical_production_change" ∷ "claim_unverified_fix" ∷ "bypass_approvals" ∷ [];
  read_only = false;
}

abbrev ai_data_manager_permissions : Permissions
ai_data_manager_permissions = record {
  allowed_tools =
      "inspect_import_data" ∷ "validate_data_fields" ∷ "detect_data_conflicts" ∷ "detect_duplicates"
      ∷ "preview_import" ∷ "create_data_change_request" ∷ [];
  forbidden_actions =
      "invent_missing_data" ∷ "overwrite_trusted_data" ∷ "direct_unverified_import"
      ∷ "direct_db_update" ∷ [];
  read_only = false;
}

abbrev ai_analyst_permissions : Permissions
ai_analyst_permissions = record {
  allowed_tools =
      "get_revenue_analytics" ∷ "get_sales_analytics" ∷ "get_customer_analytics"
      ∷ "get_order_analytics" ∷ "get_ai_usage_analytics" ∷ "get_support_analytics"
      ∷ "calculate_kpis" ∷ "generate_recommendation" ∷ [];
  forbidden_actions = "modify_business_data" ∷ "direct_db_mutation" ∷ "execute_transaction" ∷ [];
  read_only = true;
}

unfoldable pub agent_permissions : List (String × Permissions)
agent_permissions =
    ("owner_ai", owner_ai_permissions)
    ∷ ("ai_sales", ai_sales_permissions)
    ∷ ("ai_client_manager", ai_client_manager_permissions)
    ∷ ("ai_support", ai_support_permissions)
    ∷ ("ai_data_manager", ai_data_manager_permissions)
    ∷ ("ai_analyst", ai_analyst_permissions)
    ∷ []

unfoldable pub check_tool_permission : String → String → Bool
unfolding agent_permissions
check_tool_permission agent_name tool_name = elim (lookup agent_name agent_permissions) [
  | none ↦ false
  | some agent_perms ↦ mem_str tool_name agent_perms.allowed_tools
]
