-- ===== src/Authority/Service.antt =====
-- app/core/authority/service.py: `ActionAuthorizationService`. The first argument of the section is
-- the digest of the hash, `db` says whether there is a session, and `now` is the time of the call.
pub mod Leaves
pub mod Rules
pub mod Policy
pub mod Audit
pub mod Complete
pub mod Safety
use Prim.Native.String.{◌++◌ as concat}
use multi_agent_ai_system.Prelude.{
  ℕ, ◌==◌, ltb, String, str_eq, mem_str, Bool, true, false, not, ◌&&◌, ◌||◌, Option, none, some,
  List, [], ◌∷◌, select, if◌then◌else◌,
}
use multi_agent_ai_system.Prelude.Text.{decimal, lower}
use multi_agent_ai_system.Prelude.Json.{
  Json, null, str, id_text, obj, arr, Items, Dict, end, entry, get, or_empty, truthy, is_text,
}
use multi_agent_ai_system.Core.Exceptions.{
  Exception, Result, ok, err, Action, pure, lift, scalar_one_or_none, ◌>>=◌, ◌>>◌,
}
use multi_agent_ai_system.Billing.Models.{Approval}
use multi_agent_ai_system.Platform.Context.{AuthenticatedActor}
use multi_agent_ai_system.Platform.Store.{
  Store, ProvisioningAudit, add_audit, commit, save_approval,
}
use multi_agent_ai_system.Authority.Risk.{
  ActionRiskLevel, low, medium, high, critical, level, severe, classify, is_true,
  get_required_action_permission,
}
use multi_agent_ai_system.Authority.Checks.{
  text_of, is_none, crosses_tenant, is_owner_ai_target, by_platform_owner, is_owner_ai_actor,
  has_permission, is_low, is_medium, self_approved, owner_approved, is_decided, is_expired,
  stored_params, matches,
}
use multi_agent_ai_system.Authority.Schemas.{
  ActionRequest, AuthorizationDecision, ExecutionDecision, allow, waiting_approval, deny,
  decision_value, compute_hash, compute_action_hash,
}

abbrev optional_text : Option String → Json
optional_text none = null
optional_text (some t) = str t

abbrev optional_id : Option ℕ → Json
optional_id none = null
optional_id (some n) = id_text n

abbrev id_or_none : Option ℕ → String
id_or_none none = "None"
id_or_none (some n) = decimal n

abbrev pub actor_text : ActionRequest → String
actor_text request = elim request.actor [
  | some a ↦ concat "user_" (id_or_none a.user_id)
  | none ↦
      if str_eq (text_of request.agent_id) ""
      then "system"
      else concat "agent_" (text_of request.agent_id)
]

unfoldable pub audit_row :
    ActionRequest → ActionRiskLevel → ExecutionDecision → String → String → ProvisioningAudit
audit_row request risk decision code hash = record {
  tenant_id = request.tenant_id;
  action = concat "action_authorization." request.action_type;
  previous_state = none;
  new_state = some (decision_value decision);
  actor = actor_text request;
  reason = some (
      concat "Risk: " (
        concat (level risk)
          (concat ", Decision: " (concat (decision_value decision) (concat ", Code: " code)))));
  result = code;
  metadata_info = some (
      entry "action_type" (str request.action_type) (
        entry "target" (str request.target) (
          entry "risk_level" (str (level risk)) (
            entry "action_hash" (str hash) (
              entry "approval_id" (optional_id request.approval_id)
                (entry "correlation_id" (optional_text request.correlation_id) end))))));
}

unfoldable pub record_audit_event :
    Bool
    → ActionRequest
    → ActionRiskLevel
    → ExecutionDecision
    → String
    → String
    → Action Store (Unit {0})
record_audit_event db request risk decision code hash =
    if db then add_audit (audit_row request risk decision code hash) else pure tt

-- The statements that every branch ends with: record the decision, and return it.
unfoldable pub decide :
    Bool
    → ActionRequest
    → ActionRiskLevel
    → String
    → ExecutionDecision
    → String
    → Option ℕ
    → List String
    → Action Store AuthorizationDecision
decide db request risk hash decision code approval_id permissions = do
  record_audit_event db request risk decision code hash
  pure (record {
    decision = decision;
    risk_level = risk;
    approval_id = approval_id;
    action_hash = hash;
    required_permissions = permissions;
  })

module _ (digest : Dict → String) where
  unfoldable pub rebuilt_hash : String → String → ℕ → Result Dict → Result Json
  rebuilt_hash action_type target tenant_id (ok params) =
      ok (str (compute_hash digest action_type target tenant_id params))
  rebuilt_hash action_type target tenant_id (err e) = err e

  unfoldable pub stored_hash : Approval → Result Json
  unfolding rebuilt_hash
  stored_hash appr =
      let meta = or_empty appr.meta_data in
      let rebuilt =
        rebuilt_hash appr.action_type appr.target appr.tenant_id
          (stored_params (get "params" meta)) in
      elim (get "action_hash" meta) [ none ↦ rebuilt | some h ↦ if truthy h then ok h else rebuilt ]

  module _ (db : Bool) (now : ℕ) (request : ActionRequest) (risk : ActionRiskLevel)
      (hash : String) where
    unfoldable pub check_binding : Approval → Json → Action Store AuthorizationDecision
    check_binding appr stored =
        if not (is_text hash (some stored))
        then decide db request risk hash deny "APPROVAL_BINDING_MISMATCH" (some appr.id) []
        else if is_medium risk && not (has_permission request)
        then decide db request risk hash deny "PERMISSION_DENIED_MEDIUM_RISK" none
            (get_required_action_permission request.action_type ∷ [])
        else decide db request risk hash allow "APPROVED_EXECUTION_AUTHORIZED" (some appr.id) []

    unfoldable pub expire : Approval → Action Store AuthorizationDecision
    expire appr = do
      save_approval (record appr { status = "EXPIRED" })
      commit
      decide db request risk hash deny "APPROVAL_EXPIRED" (some appr.id) []

    unfoldable pub check_approval : Approval → Action Store AuthorizationDecision
    unfolding check_binding expire
    check_approval appr =
        if not (is_decided appr)
        then decide db request risk hash deny (concat "APPROVAL_STATUS_" appr.status) (some appr.id)
            []
        else if is_expired now appr
        then expire appr
        else if severe risk && self_approved request appr
        then decide db request risk hash deny "SELF_APPROVAL_FORBIDDEN" (some appr.id) []
        else if severe risk && not (owner_approved appr)
        then decide db request risk hash deny "UNAUTHORIZED_APPROVER_IDENTITY" (some appr.id) []
        else do stored ← lift (stored_hash appr); check_binding appr stored

    unfoldable pub found_approval : Option Approval → Action Store AuthorizationDecision
    unfolding check_approval
    found_approval none = decide db request risk hash deny "APPROVAL_NOT_FOUND" none []
    found_approval (some appr) = check_approval appr

    unfoldable pub with_approval : ℕ → Action Store AuthorizationDecision
    unfolding found_approval
    with_approval approval_id = do
      found ← λ s.
          scalar_one_or_none
            (select (λ a. matches a approval_id request.tenant_id) s.view.billing.approvals) s
      found_approval found

    unfoldable pub medium_decision : Action Store AuthorizationDecision
    medium_decision =
        let needed = get_required_action_permission request.action_type ∷ [] in
        if not (has_permission request)
        then decide db request risk hash deny "PERMISSION_DENIED_MEDIUM_RISK" none needed
        else decide db request risk hash allow "MEDIUM_RISK_AUTHORIZED" none needed

    unfoldable pub without_approval : Action Store AuthorizationDecision
    unfolding medium_decision
    without_approval =
        if is_low risk
        then decide db request risk hash allow "LOW_RISK_AUTHORIZED" none []
        else if is_medium risk
        then medium_decision
        else decide db request risk hash waiting_approval "HIGH_RISK_APPROVAL_REQUIRED" none []

    unfoldable pub approval_gate : Option ℕ → Action Store AuthorizationDecision
    unfolding with_approval without_approval
    approval_gate none = without_approval
    approval_gate (some approval_id) =
        if not db
        then pure (record {
          decision = deny;
          risk_level = risk;
          approval_id = none;
          action_hash = hash;
          required_permissions = [];
        })
        else with_approval approval_id

    unfoldable pub authorize : Action Store AuthorizationDecision
    unfolding approval_gate
    authorize =
        if crosses_tenant request
        then decide db request risk hash deny "FORBIDDEN_CROSS_TENANT_ACCESS" none []
        else if is_owner_ai_target request && not (by_platform_owner request)
        then decide db request risk hash deny "UNAUTHORIZED_OWNER_AI_ACCESS" none []
        else if is_owner_ai_actor request && severe risk && is_none request.approval_id
        then decide db request risk hash waiting_approval "OWNER_AI_SELF_APPROVAL_FORBIDDEN" none []
        else approval_gate request.approval_id

  unfoldable pub evaluate_action : Bool → ℕ → ActionRequest → Action Store AuthorizationDecision
  unfolding authorize
  evaluate_action db now request =
      authorize db now request (classify request.action_type request.params)
        (compute_action_hash digest request)
