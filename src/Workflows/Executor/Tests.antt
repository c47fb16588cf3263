-- ===== src/Workflows/Executor/Tests.antt =====
-- An approved refund that a workflow runs. The world counts the actions that reached it.
use multi_agent_ai_system.Prelude.{ℕ, String, Option, none, some, [], ◌∷◌, ◌≡◌, ◌≢◌, refl, arith}
use multi_agent_ai_system.Prelude.Text.{lower, strip}
use multi_agent_ai_system.Prelude.Json.{Json, str, id_text, Dict, end, entry}
use multi_agent_ai_system.Core.Exceptions.{Result, ok, Action, ◌>>=◌, ◌>>◌}
use multi_agent_ai_system.Platform.Samples.{store, staff, approval}
use multi_agent_ai_system.Authority.Risk.{classify, action_risk_policy_map}
use multi_agent_ai_system.Authority.Schemas.{ActionRequest, compute_hash, compute_action_hash}
use multi_agent_ai_system.Authority.Checks.{
  crosses_tenant, is_owner_ai_target, by_platform_owner, is_owner_ai_actor, has_permission,
  self_approved, owner_approved, is_expired,
}
use multi_agent_ai_system.Authority.Service.{
  audit_row, decide, record_audit_event, stored_hash, check_binding, check_approval, found_approval,
  with_approval, approval_gate, authorize, evaluate_action,
}
use multi_agent_ai_system.Authority.Service.Safety.{OwnerConsent}
use multi_agent_ai_system.Workflows.Models.{ActionResult}
use multi_agent_ai_system.Workflows.Executor.{
  Python, Scene, success, is_forbidden, action_request, run_action, execute_clean, execute,
}
use multi_agent_ai_system.Workflows.Executor.Gate.{IsRequestOf, effect-OwnerConsent}

abbrev first_text : Dict → String
first_text (entry k (str t) d) = t
first_text _ = ""

abbrev uuid_of : Json → Option ℕ
uuid_of (id_text n) = some n
uuid_of _ = none

abbrev python : Python
python = record {
  str_of = λ v. "payment_2";
  repr = λ d. "{'target': 'payment_2'}";
  uuid_of = uuid_of;
  reason_of = λ d. "denied";
}

abbrev refunds : ActionRequest → Dict → Action (Scene ℕ) ActionResult
refunds request context s = (ok (success end), record s { world = ℕ.suc s.world })

abbrev scene : Scene ℕ
scene = record { store = store "ACTIVE" [] (approval ∷ []); world = 0 }

abbrev refund_params : Dict
refund_params = entry "approval_id" (id_text 1) (entry "target" (str "payment_2") end)

abbrev refunded : Result ActionResult × Scene ℕ
refunded = execute first_text python refunds 5 (some staff) "issue_refund" refund_params end 7 scene

reached : refunded.1.world ≡ 1
unfolding execute execute_clean run_action is_forbidden action_request evaluate_action authorize
    approval_gate with_approval found_approval check_approval check_binding decide
    record_audit_event audit_row crosses_tenant is_owner_ai_target by_platform_owner
    is_owner_ai_actor has_permission self_approved owner_approved is_expired stored_hash
    compute_action_hash compute_hash classify action_risk_policy_map lower strip ◌>>=◌ ◌>>◌
reached = refl

changed : refunded.1.world ≢ 0
changed h = omega (arith, reached, h)

effect-OwnerConsent_example :
    (request : ActionRequest) × IsRequestOf python
      (some staff)
      "issue_refund"
      refund_params
      end
      7
      request
    × OwnerConsent 5 (approval ∷ []) request
unfolding classify action_risk_policy_map lower strip
effect-OwnerConsent_example =
    effect-OwnerConsent first_text python refunds 5 (some staff) "issue_refund" refund_params end 7
      scene refl changed
