-- ===== src/Authority/Tests.antt =====
-- A refund that the platform owner approved, at which the theorems are tried.
use multi_agent_ai_system.Prelude.{String, Bool, true, none, some, [], ◌∷◌, ◌≡◌, refl, inl, inr}
use multi_agent_ai_system.Prelude.Text.{lower, strip}
use multi_agent_ai_system.Prelude.Json.{Json, str, Dict, end, entry}
use multi_agent_ai_system.Core.Exceptions.{ok, ◌>>=◌, ◌>>◌}
use multi_agent_ai_system.Core.Triples.{Holds}
use multi_agent_ai_system.Platform.Store.{Store}
use multi_agent_ai_system.Platform.Samples.{store, staff, approval}
use multi_agent_ai_system.Authority.Risk.{ActionRiskLevel, severe, classify, action_risk_policy_map}
use multi_agent_ai_system.Authority.Schemas.{
  ActionRequest, AuthorizationDecision, allow, compute_hash, compute_action_hash,
}
use multi_agent_ai_system.Authority.Checks.{
  crosses_tenant, is_owner_ai_target, by_platform_owner, is_owner_ai_actor, has_permission,
  self_approved, owner_approved, is_expired,
}
use multi_agent_ai_system.Authority.Service.{
  audit_row, decide, record_audit_event, stored_hash, check_binding, check_approval, found_approval,
  with_approval, approval_gate, authorize, evaluate_action,
}
use multi_agent_ai_system.Authority.Service.Policy.{Grounds, Permitted}
use multi_agent_ai_system.Authority.Service.Rules.{evaluate_action-Permitted}
use multi_agent_ai_system.Authority.Service.Complete.{Allows, Permitted-evaluate_action}
use multi_agent_ai_system.Authority.Service.Audit.{Logged, evaluate_action-Logged}
use multi_agent_ai_system.Authority.Service.Safety.{OwnerConsent, severe-OwnerConsent}
use multi_agent_ai_system.Authority.Risk.Laws.{classify-unlisted}

-- A digest that keeps the first text.
abbrev first_text : Dict → String
first_text (entry k (str t) d) = t
first_text _ = ""

abbrev refund : ActionRequest
refund = record {
  action_type = " Issue_Refund";
  target = "payment_2";
  tenant_id = 7;
  actor = some staff;
  agent_id = none;
  params = end;
  approval_id = some 1;
  correlation_id = none;
}

abbrev refund_store : Store
refund_store = store "ACTIVE" [] (approval ∷ [])

abbrev refund_decision : AuthorizationDecision
refund_decision = record {
  decision = allow;
  risk_level = ActionRiskLevel.critical;
  approval_id = some 1;
  action_hash = "issue_refund";
  required_permissions = [];
}

refund_allowed :
    evaluate_action first_text true 5 refund refund_store
    ≡ (ok refund_decision, (evaluate_action first_text true 5 refund refund_store).1)
unfolding evaluate_action authorize approval_gate with_approval found_approval check_approval
    check_binding decide record_audit_event audit_row crosses_tenant is_owner_ai_target
    by_platform_owner is_owner_ai_actor has_permission self_approved owner_approved is_expired
    stored_hash compute_action_hash compute_hash classify action_risk_policy_map lower strip ◌>>=◌
    ◌>>◌
refund_allowed = refl

severe-OwnerConsent_example : OwnerConsent 5 (approval ∷ []) refund
unfolding classify action_risk_policy_map lower strip
severe-OwnerConsent_example =
    severe-OwnerConsent first_text true 5 refund refund_store
      (evaluate_action first_text true 5 refund refund_store).1 refund_decision refl refund_allowed
      refl

evaluate_action-Permitted_example :
    Permitted first_text 5
      (approval ∷ [])
      refund
      (classify refund.action_type refund.params)
      (compute_action_hash first_text refund)
evaluate_action-Permitted_example =
    evaluate_action-Permitted first_text true 5 refund refund_store
      (evaluate_action first_text true 5 refund refund_store).1 refund_decision refund_allowed refl

-- The grounds of the refund, written out.
refund_grounds :
    Permitted first_text 5
      (approval ∷ [])
      refund
      (classify refund.action_type refund.params)
      (compute_action_hash first_text refund)
unfolding crosses_tenant is_owner_ai_target self_approved owner_approved is_expired stored_hash
    compute_action_hash compute_hash classify action_risk_policy_map lower strip
refund_grounds = record {
  same_tenant = refl;
  not_owner_ai = inl refl;
  grounds = Grounds.by_approval approval (record {
    approval_id = 1;
    named = refl;
    only = refl;
    decided = refl;
    current = refl;
    by_owner = inr (refl, refl);
    bound = refl;
    permitted = inl refl;
  });
}

Permitted-evaluate_action_example : Allows (evaluate_action first_text true 5 refund) refund_store
Permitted-evaluate_action_example =
    Permitted-evaluate_action first_text 5 refund refund_store refund_grounds

evaluate_action-Logged_example :
    Holds
      (Logged first_text 5 refund
        (classify refund.action_type refund.params)
        (compute_action_hash first_text refund)
        [])
      (λ s'. s'.view.audits ≡ [])
      (evaluate_action first_text true 5 refund refund_store)
evaluate_action-Logged_example = evaluate_action-Logged first_text 5 refund refund_store

classify-unlisted_example :
    severe (classify "wipe_everything" (entry "is_critical" (Json.boolean Bool.false) end)) ≡ true
unfolding action_risk_policy_map lower strip
classify-unlisted_example =
    classify-unlisted "wipe_everything" (entry "is_critical" (Json.boolean Bool.false) end) refl
