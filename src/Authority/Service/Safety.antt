-- ===== src/Authority/Service/Safety.antt =====
-- What the policy means for the actions that matter most.
use multi_agent_ai_system.Prelude.{
  ℕ, Bool, true, false, some, List, [], ◌∷◌, select, subst, ◌≡◌, inl, inr, String,
}
use multi_agent_ai_system.Prelude.Json.{Dict}
use multi_agent_ai_system.Core.Exceptions.{ok}
use multi_agent_ai_system.Billing.Models.{Approval}
use multi_agent_ai_system.Platform.Store.{Store}
use multi_agent_ai_system.Authority.Risk.{ActionRiskLevel, severe, classify}
use multi_agent_ai_system.Authority.Schemas.{ActionRequest, AuthorizationDecision, allow}
use multi_agent_ai_system.Authority.Checks.{
  self_approved, owner_approved, is_decided, is_expired, matches,
}
use multi_agent_ai_system.Authority.Service.{evaluate_action}
use multi_agent_ai_system.Authority.Service.Policy.{Grounds}
use multi_agent_ai_system.Authority.Service.Rules.{evaluate_action-Permitted}

-- The one approval that a request names, decided and current, by a platform owner other than the one
-- that asked.
pub record OwnerConsent (now : ℕ) (approvals : List Approval) (request : ActionRequest)
    : Type 0 where
  pub appr : Approval
  pub approval_id : ℕ
  pub named : request.approval_id ≡ some approval_id
  pub only : select (λ a. matches a approval_id request.tenant_id) approvals ≡ appr ∷ []
  pub decided : is_decided appr ≡ true
  pub current : is_expired now appr ≡ false
  pub not_self : self_approved request appr ≡ false
  pub owner : owner_approved appr ≡ true

consent :
    (digest : Dict → String) (now : ℕ) (approvals : List Approval) (request : ActionRequest)
    (risk : ActionRiskLevel) (hash : String)
    → severe risk ≡ true
    → Grounds digest now approvals request risk hash
    → OwnerConsent now approvals request
consent digest now approvals request risk hash h (Grounds.autonomous bare lo) =
    let e : severe ActionRiskLevel.low ≡ true = subst (λ r. severe r ≡ true) lo h in cc
consent digest now approvals request risk hash h (Grounds.by_permission bare me may) =
    let e : severe ActionRiskLevel.medium ≡ true = subst (λ r. severe r ≡ true) me h in cc
consent digest now approvals request risk hash h (Grounds.by_approval appr c) = elim c.by_owner [
  | inl mild ↦ cc
  | inr (self, owner) ↦ record {
    appr = appr;
    approval_id = c.approval_id;
    named = c.named;
    only = c.only;
    decided = c.decided;
    current = c.current;
    not_self = self;
    owner = owner;
  }
]

-- An action of high or critical risk is allowed only on the one approval that the request names, which
-- is decided and has not expired, and which a platform owner gave who is not the one that asked.
pub severe-OwnerConsent :
    (digest : Dict → String) (db : Bool) (now : ℕ) (request : ActionRequest) (s s' : Store)
    (d : AuthorizationDecision)
    → severe (classify request.action_type request.params) ≡ true
    → evaluate_action digest db now request s ≡ (ok d, s')
    → d.decision ≡ allow
    → OwnerConsent now s.view.billing.approvals request
severe-OwnerConsent digest db now request s s' d h e same =
    consent digest now _ request _ _ h
      (evaluate_action-Permitted digest db now request s s' d e same).grounds
