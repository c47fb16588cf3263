-- ===== src/Authority/Risk.antt =====
-- app/core/authority/risk.py: the risk of an action, and the permission it asks for.
pub mod Laws
use multi_agent_ai_system.Prelude.{
  String, str_eq, Bool, true, false, ◌||◌, Option, none, some, List, [], ◌∷◌, lookup, if◌then◌else◌,
}
use multi_agent_ai_system.Prelude.Text.{lower, strip}
use multi_agent_ai_system.Prelude.Json.{Json, boolean, Dict, get, is_text}

pub data ActionRiskLevel : Type 0 where
  low : ActionRiskLevel
  medium : ActionRiskLevel
  high : ActionRiskLevel
  critical : ActionRiskLevel

abbrev pub level : ActionRiskLevel → String
level low = "LOW"
level medium = "MEDIUM"
level high = "HIGH"
level critical = "CRITICAL"

unfoldable pub action_risk_policy_map : List (String × ActionRiskLevel)
action_risk_policy_map =
    ("send_message", low)
    ∷ ("create_task", low)
    ∷ ("add_tag", low)
    ∷ ("remove_tag", low)
    ∷ ("log_result", low)
    ∷ ("delay", low)
    ∷ ("emit_event", low)
    ∷ ("midtrans_check_status", low)
    ∷ ("get_business_profile", low)
    ∷ ("read_catalog", low)
    ∷ ("update_customer", medium)
    ∷ ("update_order", medium)
    ∷ ("call_ai", medium)
    ∷ ("call_agent", medium)
    ∷ ("owner_ai", medium)
    ∷ ("run_owner_ai", medium)
    ∷ ("call_owner_ai", medium)
    ∷ ("google_calendar_create_event", medium)
    ∷ ("google_sheets_append", medium)
    ∷ ("google_sheets_update", medium)
    ∷ ("whatsapp_send_message", medium)
    ∷ ("midtrans_create_payment", medium)
    ∷ ("execute_integration", medium)
    ∷ ("midtrans_cancel_payment", high)
    ∷ ("midtrans_request_refund", high)
    ∷ ("request_refund", high)
    ∷ ("change_product_price", high)
    ∷ ("change_official_price", high)
    ∷ ("request_approval", high)
    ∷ ("route_approval_request", high)
    ∷ ("create_orchestration_task", high)
    ∷ ("issue_refund", critical)
    ∷ ("delete_customer", critical)
    ∷ ("delete_data", critical)
    ∷ ("delete_critical_data", critical)
    ∷ ("change_critical_config", critical)
    ∷ ("modify_security_policy", critical)
    ∷ ("activate_tenant", critical)
    ∷ ("deactivate_tenant", critical)
    ∷ []

unfoldable pub action_permission_map : List (String × String)
action_permission_map =
    ("update_customer", "business.write")
    ∷ ("update_order", "business.write")
    ∷ ("call_ai", "business.read")
    ∷ ("call_agent", "business.read")
    ∷ ("owner_ai", "business.read")
    ∷ ("run_owner_ai", "business.read")
    ∷ ("call_owner_ai", "business.read")
    ∷ ("google_calendar_create_event", "EXECUTE_INTEGRATION")
    ∷ ("google_sheets_append", "EXECUTE_INTEGRATION")
    ∷ ("google_sheets_update", "EXECUTE_INTEGRATION")
    ∷ ("whatsapp_send_message", "SEND_WHATSAPP_MESSAGE")
    ∷ ("midtrans_create_payment", "MANAGE_PAYMENTS")
    ∷ ("execute_integration", "EXECUTE_INTEGRATION")
    ∷ []

-- `str(action_type).strip().lower()`
abbrev pub clean_action : String → String
clean_action action_type = lower (strip action_type)

abbrev pub permission_or : Option String → String
permission_or none = "business.read"
permission_or (some p) = p

unfoldable pub get_required_action_permission : String → String
get_required_action_permission action_type =
    permission_or (lookup (clean_action action_type) action_permission_map)

-- `params.get(k) is True`
abbrev pub is_true : Option Json → Bool
is_true (some (boolean b)) = b
is_true _ = false

unfoldable pub classify_unlisted : Dict → ActionRiskLevel
classify_unlisted params =
    if is_true (get "is_critical" params) || is_text "critical" (get "scope" params)
    then critical
    else if is_true (get "is_high_risk" params) || is_text "high" (get "financial_impact" params)
    then high
    else high

abbrev pub level_or : Option ActionRiskLevel → ActionRiskLevel → ActionRiskLevel
level_or (some r) other = r
level_or none other = other

unfoldable pub classify : String → Dict → ActionRiskLevel
unfolding classify_unlisted
classify action_type params =
    level_or (lookup (clean_action action_type) action_risk_policy_map) (classify_unlisted params)

-- `risk_level in (HIGH, CRITICAL)`
abbrev pub severe : ActionRiskLevel → Bool
severe low = false
severe medium = false
severe high = true
severe critical = true
