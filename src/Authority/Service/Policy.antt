-- ===== src/Authority/Service/Policy.antt =====
-- When an action may run, independent of the order in which the service checks it.
use multi_agent_ai_system.Prelude.{
  ℕ, String, true, false, none, some, List, [], ◌∷◌, select, ◌≡◌, ◌⊎◌,
}
use multi_agent_ai_system.Prelude.Json.{str, Dict}
use multi_agent_ai_system.Core.Exceptions.{ok}
use multi_agent_ai_system.Billing.Models.{Approval}
use multi_agent_ai_system.Authority.Risk.{ActionRiskLevel, low, medium, severe}
use multi_agent_ai_system.Authority.Schemas.{ActionRequest}
use multi_agent_ai_system.Authority.Checks.{
  crosses_tenant, is_owner_ai_target, by_platform_owner, has_permission, is_medium, self_approved,
  owner_approved, is_decided, is_expired, matches,
}
use multi_agent_ai_system.Authority.Service.{stored_hash}

module _ (digest : Dict → String) (now : ℕ) (approvals : List Approval) (request : ActionRequest)
    (risk : ActionRiskLevel) (hash : String) where
  -- An approval that carries the action: it is the only one of its identifier and tenant, it was
  -- decided and has not expired, and it is bound to the hash of the action. Where the risk is high,
  -- a platform owner decided it, who is not the one that asked; where it is medium, the actor has
  -- the permission besides.
  pub record Carries (appr : Approval) : Type 0 where
    pub approval_id : ℕ
    pub named : request.approval_id ≡ some approval_id
    pub only : select (λ a. matches a approval_id request.tenant_id) approvals ≡ appr ∷ []
    pub decided : is_decided appr ≡ true
    pub current : is_expired now appr ≡ false
    pub by_owner :
        (severe risk ≡ false)
        ⊎ ((self_approved request appr ≡ false) × (owner_approved appr ≡ true))
    pub bound : stored_hash digest appr ≡ ok (str hash)
    pub permitted : (is_medium risk ≡ false) ⊎ (has_permission request ≡ true)

  pub data Grounds : Type 0 where
    autonomous : request.approval_id ≡ none → risk ≡ low → Grounds
    by_permission :
        request.approval_id ≡ none → risk ≡ medium → has_permission request ≡ true → Grounds
    by_approval : (appr : Approval) → Carries appr → Grounds

  -- The actor works in the tenant of the request, only a platform owner reaches Owner AI, and there
  -- are grounds.
  pub record Permitted : Type 0 where
    pub same_tenant : crosses_tenant request ≡ false
    pub not_owner_ai : (is_owner_ai_target request ≡ false) ⊎ (by_platform_owner request ≡ true)
    pub grounds : Grounds
