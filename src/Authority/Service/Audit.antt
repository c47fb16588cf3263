-- ===== src/Authority/Service/Audit.antt =====
-- The audit of `ActionAuthorizationService`: `_record_audit_event` on every way to a decision.
use multi_agent_ai_system.Prelude.{
  ℕ, String, true, not, ◌&&◌, Option, none, some, List, [], ◌∷◌, ◌++◌, ◌≡◌, refl, select,
}
use multi_agent_ai_system.Prelude.Json.{Json, Dict, is_text}
use multi_agent_ai_system.Core.Exceptions.{◌>>=◌, ◌>>◌}
use multi_agent_ai_system.Core.Triples.{
  Triple, Holds, bind_rule, either_rule, query-Keeps, lift-Keeps,
}
use multi_agent_ai_system.Billing.Models.{Approval}
use multi_agent_ai_system.Platform.Store.{Store, ProvisioningAudit}
use multi_agent_ai_system.Authority.Risk.{ActionRiskLevel, classify, severe}
use multi_agent_ai_system.Authority.Schemas.{
  ActionRequest, AuthorizationDecision, ExecutionDecision, compute_action_hash,
}
use multi_agent_ai_system.Authority.Checks.{
  is_medium, is_low, has_permission, is_decided, is_expired, self_approved, owner_approved,
  crosses_tenant, is_owner_ai_target, by_platform_owner, is_owner_ai_actor, is_none, matches,
}
use multi_agent_ai_system.Authority.Service.{
  audit_row, decide, record_audit_event, stored_hash, check_binding, expire, check_approval,
  found_approval, with_approval, medium_decision, without_approval, approval_gate, authorize,
  evaluate_action,
}

module _ (digest : Dict → String) (now : ℕ) (request : ActionRequest) (risk : ActionRiskLevel)
    (hash : String) (audits : List ProvisioningAudit) where
  abbrev Before : Store → Type 0
  Before s = s.view.audits ≡ audits

  -- The audit has grown by the row of the decision.
  abbrev pub Logged : AuthorizationDecision → Store → Type 0
  Logged d s =
      (code : String) × (s.view.audits ≡ audits ++ audit_row request risk d.decision code hash ∷ [])

  decided :
      (decision : ExecutionDecision) (code : String) (id : Option ℕ) (needed : List String)
      → Triple Before (decide true request risk hash decision code id needed) Logged Before
  unfolding decide record_audit_event ◌>>=◌ ◌>>◌
  decided decision code id needed s p = (code, rw p refl)

  expired :
      (appr : Approval)
      → Triple Before (expire digest true now request risk hash appr) Logged Before
  unfolding expire ◌>>=◌ ◌>>◌
  expired appr s p = decided ExecutionDecision.deny "APPROVAL_EXPIRED" (some appr.id) [] _ p

  bound :
      (appr : Approval) (j : Json)
      → Triple Before (check_binding digest true now request risk hash appr j) Logged Before
  unfolding check_binding
  bound appr j =
      either_rule Before Logged Before (not (is_text hash (some j))) _ _ (decided _ _ _ _) (
        either_rule Before Logged Before (is_medium risk && not (has_permission request)) _ _
          (decided _ _ _ _) (decided _ _ _ _))

  checked :
      (appr : Approval)
      → Triple Before (check_approval digest true now request risk hash appr) Logged Before
  unfolding check_approval
  checked appr = either_rule Before Logged Before (not (is_decided appr)) _ _ (decided _ _ _ _) (
      either_rule Before Logged Before (is_expired now appr) _ _ (expired appr) (
        either_rule Before Logged Before (severe risk && self_approved request appr) _ _
          (decided _ _ _ _)
          (either_rule Before Logged Before (severe risk && not (owner_approved appr)) _ _
            (decided _ _ _ _)
            (bind_rule Before (λ _. Before) Logged Before _ _
              (lift-Keeps Before (stored_hash digest appr)) (bound appr)))))

  found :
      (o : Option Approval)
      → Triple Before (found_approval digest true now request risk hash o) Logged Before
  unfolding found_approval
  found none = decided _ _ _ _
  found (some appr) = checked appr

  without : Triple Before (without_approval digest true now request risk hash) Logged Before
  unfolding without_approval medium_decision
  without = either_rule Before Logged Before (is_low risk) _ _ (decided _ _ _ _) (
      either_rule Before Logged Before (is_medium risk) _ _
        (either_rule Before Logged Before (not (has_permission request)) _ _ (decided _ _ _ _)
          (decided _ _ _ _))
        (decided _ _ _ _))

  gate :
      (o : Option ℕ)
      → Triple Before (approval_gate digest true now request risk hash o) Logged Before
  unfolding approval_gate with_approval
  gate none = without
  gate (some id) =
      bind_rule Before (λ _. Before) Logged Before _ _
        (query-Keeps Before
          (λ s. select (λ a. matches a id request.tenant_id) s.view.billing.approvals))
        found

  authorized : Triple Before (authorize digest true now request risk hash) Logged Before
  unfolding authorize
  authorized = either_rule Before Logged Before (crosses_tenant request) _ _ (decided _ _ _ _) (
      either_rule Before Logged Before
        (is_owner_ai_target request && not (by_platform_owner request)) _ _ (decided _ _ _ _)
        (either_rule Before Logged Before
          (is_owner_ai_actor request && severe risk && is_none request.approval_id) _ _
          (decided _ _ _ _) (gate request.approval_id)))

-- With a session an evaluation that returns has added exactly one row to the audit, and the row has
-- the decision that is returned; one that raises has added none.
pub evaluate_action-Logged :
    (digest : Dict → String) (now : ℕ) (request : ActionRequest) (s : Store)
    → Holds
        (Logged digest now request
          (classify request.action_type request.params)
          (compute_action_hash digest request)
          s.view.audits)
        (λ s'. s'.view.audits ≡ s.view.audits)
        (evaluate_action digest true now request s)
unfolding evaluate_action
evaluate_action-Logged digest now request s = authorized digest now request _ _ s.view.audits s refl
