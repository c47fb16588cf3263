-- ===== src/Authority/Service/Rules.antt =====
-- What an allowed action rests on: the checks of `ActionAuthorizationService`, one rule for each.
use multi_agent_ai_system.Authority.Service.Leaves.{
  Only, Any, refused, granted, not_deny, not_waiting, bound_text, refuted, owner_checks,
  either_permitted, low_only, medium_only,
}
use multi_agent_ai_system.Prelude.{
  ℕ, String, Bool, true, false, not, ◌&&◌, Option, none, some, List, [], ◌∷◌, select, ◌≡◌, refl,
  subst, ◌⊎◌,
}
use multi_agent_ai_system.Prelude.Json.{Json, Dict, is_text}
use multi_agent_ai_system.Core.Exceptions.{Result, ok, ◌>>=◌, ◌>>◌}
use multi_agent_ai_system.Core.Triples.{
  Holds, Triple, Found, bind_rule, case_rule, query_rule, lift_rule, consequence,
}
use multi_agent_ai_system.Billing.Models.{Approval}
use multi_agent_ai_system.Platform.Store.{Store}
use multi_agent_ai_system.Authority.Risk.{ActionRiskLevel, severe, classify}
use multi_agent_ai_system.Authority.Schemas.{
  ActionRequest, AuthorizationDecision, allow, waiting_approval, deny, compute_action_hash,
}
use multi_agent_ai_system.Authority.Checks.{
  crosses_tenant, is_owner_ai_target, by_platform_owner, is_owner_ai_actor, is_none, has_permission,
  is_low, is_medium, self_approved, owner_approved, is_decided, is_expired, matches,
}
use multi_agent_ai_system.Authority.Service.{
  stored_hash, check_binding, expire, check_approval, found_approval, with_approval,
  medium_decision, without_approval, approval_gate, authorize, evaluate_action,
}
use multi_agent_ai_system.Authority.Service.Policy.{Grounds, Permitted}

module _ (digest : Dict → String) (db : Bool) (now : ℕ) (approvals : List Approval)
    (request : ActionRequest) (risk : ActionRiskLevel) (hash : String) where
  abbrev Held : Type 0
  Held = Grounds digest now approvals request risk hash

  expire_refused :
      (appr : Approval) → Triple Any (expire digest db now request risk hash appr) (Only Held) Any
  unfolding expire ◌>>=◌ ◌>>◌
  expire_refused appr s p =
      refused Any Held db request risk hash deny "APPROVAL_EXPIRED" (some appr.id) [] not_deny _ tt

  binding_rule :
      (appr : Approval) (j : Json)
      → (is_text hash (some j) ≡ true
          → (is_medium risk ≡ false) ⊎ (has_permission request ≡ true)
          → Held)
      → Triple Any (check_binding digest db now request risk hash appr j) (Only Held) Any
  unfolding check_binding
  binding_rule appr j held =
      case_rule Any (Only Held) Any (not (is_text hash (some j))) _ _
        (λ _. refused Any Held db request risk hash deny _ _ _ not_deny)
        λ e.
          case_rule Any (Only Held) Any (is_medium risk && not (has_permission request)) _ _
            (λ _. refused Any Held db request risk hash deny _ _ _ not_deny)
            λ f.
              granted Any Held db request risk hash _ _ _
                (held (refuted _ e) (either_permitted _ _ f))

  approval_rule :
      (id : ℕ) (appr : Approval)
      → request.approval_id ≡ some id
      → select (λ a. matches a id request.tenant_id) approvals ≡ appr ∷ []
      → Triple Any (check_approval digest db now request risk hash appr) (Only Held) Any
  unfolding check_approval
  approval_rule id appr named only =
      case_rule Any (Only Held) Any (not (is_decided appr)) _ _
        (λ _. refused Any Held db request risk hash deny _ _ _ not_deny)
        λ e1.
          case_rule Any (Only Held) Any (is_expired now appr) _ _ (λ _. expire_refused appr)
            λ e2.
              case_rule Any (Only Held) Any (severe risk && self_approved request appr) _ _
                (λ _. refused Any Held db request risk hash deny _ _ _ not_deny)
                λ e3.
                  case_rule Any (Only Held) Any (severe risk && not (owner_approved appr)) _ _
                    (λ _. refused Any Held db request risk hash deny _ _ _ not_deny)
                    λ e4.
                      bind_rule Any (λ j s. Unit × (stored_hash digest appr ≡ ok j)) (Only Held) Any
                        _ _ (lift_rule Any (stored_hash digest appr))
                        λ j s p.
                          binding_rule appr j
                            (λ same may. Grounds.by_approval appr (record {
                              approval_id = id;
                              named = named;
                              only = only;
                              decided = refuted _ e1;
                              current = e2;
                              by_owner = owner_checks _ _ _ e3 e4;
                              bound = rw (← bound_text hash j same) p.1;
                              permitted = may;
                            }))
                            s tt

  Found-rule :
      (id : ℕ) (o : Option Approval)
      → request.approval_id ≡ some id
      → Found (select (λ a. matches a id request.tenant_id) approvals) o
      → Triple Any (found_approval digest db now request risk hash o) (Only Held) Any
  unfolding found_approval
  Found-rule id none named f = refused Any Held db request risk hash deny _ _ _ not_deny
  Found-rule id (some appr) named f = approval_rule id appr named f

  -- The rows of the approvals are those that the grounds speak of.
  abbrev Reads : Store → Type 0
  Reads s = s.view.billing.approvals ≡ approvals

  lookup_rule :
      (id : ℕ)
      → request.approval_id ≡ some id
      → Triple Reads (with_approval digest db now request risk hash id) (Only Held) Any
  unfolding with_approval
  lookup_rule id named =
      let rows : Store → List Approval =
        λ s. select (λ a. matches a id request.tenant_id) s.view.billing.approvals in
      bind_rule Reads (λ o s. Reads s × Found (rows s) o) (Only Held) Any _ _
        (consequence Reads Reads _ (λ o s. Reads s × Found (rows s) o) Reads Any _ (λ s h. h)
          (λ o s h. h) (λ s h. tt) (query_rule Reads rows))
        λ o s p.
          Found-rule id o named
            (subst (λ l. Found (select (λ a. matches a id request.tenant_id) l) o) p.0 p.1) s tt

  without_rule :
      request.approval_id ≡ none
      → Triple Reads (without_approval digest db now request risk hash) (Only Held) Any
  unfolding without_approval medium_decision
  without_rule bare =
      case_rule Reads (Only Held) Any (is_low risk) _ _
        (λ e.
          granted Reads Held db request risk hash _ _ _ (Grounds.autonomous bare (low_only risk e)))
        λ _.
          case_rule Reads (Only Held) Any (is_medium risk) _ _
            (λ e.
              case_rule Reads (Only Held) Any (not (has_permission request)) _ _
                (λ _. refused Reads Held db request risk hash deny _ _ _ not_deny)
                λ f.
                  granted Reads Held db request risk hash _ _ _
                    (Grounds.by_permission bare (medium_only risk e) (refuted _ f)))
            λ _. refused Reads Held db request risk hash waiting_approval _ _ _ not_waiting

  gate_rule :
      (o : Option ℕ)
      → request.approval_id ≡ o
      → Triple Reads (approval_gate digest db now request risk hash o) (Only Held) Any
  unfolding approval_gate
  gate_rule none e = without_rule e
  gate_rule (some id) e =
      case_rule Reads (Only Held) Any (not db) _ _ (λ _ s p. λ same. elim (not_deny same) [ ])
        λ _. lookup_rule id e

  abbrev Sound : Type 0
  Sound = Permitted digest now approvals request risk hash

  pub authorize_rule : Triple Reads (authorize digest db now request risk hash) (Only Sound) Any
  unfolding authorize
  authorize_rule =
      case_rule Reads (Only Sound) Any (crosses_tenant request) _ _
        (λ _. refused Reads Sound db request risk hash deny _ _ _ not_deny)
        λ e1.
          case_rule Reads (Only Sound) Any
            (is_owner_ai_target request && not (by_platform_owner request)) _ _
            (λ _. refused Reads Sound db request risk hash deny _ _ _ not_deny)
            λ e2.
              case_rule Reads (Only Sound) Any
                (is_owner_ai_actor request && severe risk && is_none request.approval_id) _ _
                (λ _. refused Reads Sound db request risk hash waiting_approval _ _ _ not_waiting)
                λ _.
                  consequence Reads Reads (Only Held) (Only Sound) Any Any _ (λ s h. h)
                    (λ d s held same. record {
                      same_tenant = e1;
                      not_owner_ai = either_permitted _ _ e2;
                      grounds = held same;
                    })
                    (λ s h. h) (gate_rule request.approval_id refl)

returned :
    {A : Type 0} (Q : A → Store → Type 0) (o : Result A × Store) (a : A) (s : Store)
    → o ≡ (ok a, s)
    → Holds Q Any o
    → Q a s
returned Q o a s e h = subst (Holds Q Any) e h

module _ (digest : Dict → String) (db : Bool) (now : ℕ) (request : ActionRequest) (s s' : Store)
    (d : AuthorizationDecision) where
  -- An action is allowed only where the policy permits it: the actor works in the tenant of the
  -- request, only a platform owner reaches Owner AI, and the grounds are a low risk, a medium risk with
  -- the permission, or an approval that is decided, not expired, bound to the hash of this action, and,
  -- for a high or critical risk, given by a platform owner who is not the one that asked.
  pub evaluate_action-Permitted :
      evaluate_action digest db now request s ≡ (ok d, s')
      → d.decision ≡ allow
      → Permitted digest now s.view.billing.approvals request
          (classify request.action_type request.params)
          (compute_action_hash digest request)
  unfolding evaluate_action
  evaluate_action-Permitted e same =
      returned
        (Only (
          Permitted digest now s.view.billing.approvals request
            (classify request.action_type request.params) (compute_action_hash digest request)))
        _ d s' e (authorize_rule digest db now s.view.billing.approvals request _ _ s refl) same
