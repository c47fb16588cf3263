-- ===== src/Authority/Service/Complete.antt =====
-- The other direction of the policy: what it permits, the service allows.
use multi_agent_ai_system.Prelude.{
  ℕ, String, Bool, true, false, not, ◌&&◌, Option, none, some, List, ◌≡◌, refl, ◌⊎◌, inl, inr,
  arith, ◌∙◌, if◌then◌else◌, eq_refl,
}
use multi_agent_ai_system.Prelude.Json.{str, Dict, is_text}
use multi_agent_ai_system.Core.Exceptions.{ok, Action, lift, ◌>>=◌, ◌>>◌, bind_ok}
use multi_agent_ai_system.Billing.Models.{Approval}
use multi_agent_ai_system.Platform.Store.{Store}
use multi_agent_ai_system.Authority.Risk.{ActionRiskLevel, severe, classify}
use multi_agent_ai_system.Authority.Schemas.{
  ActionRequest, AuthorizationDecision, allow, compute_action_hash,
}
use multi_agent_ai_system.Authority.Checks.{
  crosses_tenant, is_owner_ai_target, by_platform_owner, is_owner_ai_actor, is_none, has_permission,
  is_low, is_medium, self_approved, owner_approved, is_decided, is_expired,
}
use multi_agent_ai_system.Authority.Service.{
  decide, record_audit_event, stored_hash, check_binding, check_approval, found_approval,
  with_approval, medium_decision, without_approval, approval_gate, authorize, evaluate_action,
}
use multi_agent_ai_system.Authority.Service.Policy.{Carries, Grounds, Permitted}

-- The call returns, and allows.
abbrev pub Allows : Action Store AuthorizationDecision → Store → Type 0
Allows m s = (d : AuthorizationDecision) × (s' : Store) × (m s ≡ (ok d, s')) × (d.decision ≡ allow)

allowed :
    (request : ActionRequest) (risk : ActionRiskLevel) (hash code : String) (id : Option ℕ)
    (needed : List String) (s : Store)
    → Allows (decide true request risk hash allow code id needed) s
unfolding decide record_audit_event ◌>>=◌ ◌>>◌
allowed request risk hash code id needed s = (_, _, refl, refl)

-- A guard that does not hold leads to what follows.
beyond :
    (b : Bool) (m k : Action Store AuthorizationDecision) (s : Store)
    → b ≡ false
    → Allows k s
    → Allows (if b then m else k) s
beyond false m k s e h = h
beyond true m k s e h = cc

into :
    (b : Bool) (m k : Action Store AuthorizationDecision) (s : Store)
    → b ≡ true
    → Allows m s
    → Allows (if b then m else k) s
into true m k s e h = h
into false m k s e h = cc

after :
    {A : Type 0} (m : Action Store A) (f : A → Action Store AuthorizationDecision) (s s' : Store)
    (a : A)
    → m s ≡ (ok a, s')
    → Allows (f a) s'
    → Allows (m >>= f) s
after m f s s' a e (d, t, h, same) = (d, t, bind_ok m f s s' a e ∙ h, same)

-- Guards `a and not b` and `a and b` that do not hold.
no_need : (a b : Bool) → (a ≡ false) ⊎ (b ≡ true) → (a && not b) ≡ false
no_need a b (inl e) = rw e refl
no_need a b (inr e) = rw e (ground arith)

not_self : (a b c : Bool) → (a ≡ false) ⊎ ((b ≡ false) × (c ≡ true)) → (a && b) ≡ false
not_self a b c (inl e) = rw e refl
not_self a b c (inr e) = rw e.0 (ground arith)

owner : (a b c : Bool) → (a ≡ false) ⊎ ((b ≡ false) × (c ≡ true)) → (a && not c) ≡ false
owner a b c (inl e) = rw e refl
owner a b c (inr e) = rw e.1 (ground arith)

holds : (b : Bool) → b ≡ true → not b ≡ false
holds b e = rw e refl

module _ (digest : Dict → String) (now : ℕ) (request : ActionRequest) (risk : ActionRiskLevel)
    (hash : String) (s : Store) where
  binding_allows :
      (appr : Approval)
      → (is_medium risk ≡ false) ⊎ (has_permission request ≡ true)
      → Allows (check_binding digest true now request risk hash appr (str hash)) s
  unfolding check_binding
  binding_allows appr may =
      beyond (not (is_text hash (some (str hash)))) _ _ s (holds _ (eq_refl hash)) (
        beyond (is_medium risk && not (has_permission request)) _ _ s (no_need _ _ may)
          (allowed request risk hash _ _ _ s))

  approval_allows :
      (appr : Approval)
      → Carries digest now s.view.billing.approvals request risk hash appr
      → Allows (check_approval digest true now request risk hash appr) s
  unfolding check_approval
  approval_allows appr c = beyond (not (is_decided appr)) _ _ s (holds _ c.decided) (
      beyond (is_expired now appr) _ _ s c.current (
        beyond (severe risk && self_approved request appr) _ _ s (not_self _ _ _ c.by_owner) (
          beyond (severe risk && not (owner_approved appr)) _ _ s (owner _ _ _ c.by_owner) (
            after (lift (stored_hash digest appr)) _ s s (str hash) (rw c.bound refl)
              (binding_allows appr c.permitted)))))

  without_allows :
      (o : Option ℕ)
      → o ≡ none
      → Allows (without_approval digest true now request risk hash) s
      → Allows (approval_gate digest true now request risk hash o) s
  unfolding approval_gate
  without_allows none bare h = h
  without_allows (some id) bare h = cc

  found_allows :
      (o : Option ℕ) (appr : Approval)
      (c : Carries digest now s.view.billing.approvals request risk hash appr)
      → o ≡ some c.approval_id
      → Allows (approval_gate digest true now request risk hash o) s
  unfolding approval_gate with_approval found_approval
  found_allows none appr c named = cc
  found_allows (some id) appr c named =
      let same : id ≡ c.approval_id = cc in
      after _ _ s s (some appr) (rw (same, c.only) refl) (approval_allows appr c)

  gate_allows :
      Grounds digest now s.view.billing.approvals request risk hash
      → Allows (approval_gate digest true now request risk hash request.approval_id) s
  unfolding without_approval medium_decision
  gate_allows (Grounds.autonomous bare lo) =
      without_allows request.approval_id bare
        (into (is_low risk) _ _ s (rw lo refl) (allowed request risk hash _ _ _ s))
  gate_allows (Grounds.by_permission bare me may) = without_allows request.approval_id bare (
      beyond (is_low risk) _ _ s (rw me refl) (
        into (is_medium risk) _ _ s (rw me refl) (
          beyond (not (has_permission request)) _ _ s (holds _ may)
            (allowed request risk hash _ _ _ s))))
  gate_allows (Grounds.by_approval appr c) = found_allows request.approval_id appr c c.named

  not_waiting :
      Grounds digest now s.view.billing.approvals request risk hash
      → (is_owner_ai_actor request && severe risk && is_none request.approval_id) ≡ false
  not_waiting (Grounds.autonomous bare lo) = rw lo (ground arith)
  not_waiting (Grounds.by_permission bare me may) = rw me (ground arith)
  not_waiting (Grounds.by_approval appr c) = rw c.named (ground arith)

  pub authorize-Allows :
      Permitted digest now s.view.billing.approvals request risk hash
      → Allows (authorize digest true now request risk hash) s
  unfolding authorize
  authorize-Allows p = beyond (crosses_tenant request) _ _ s p.same_tenant (
      beyond (is_owner_ai_target request && not (by_platform_owner request)) _ _ s
        (no_need _ _ p.not_owner_ai)
        (beyond (is_owner_ai_actor request && severe risk && is_none request.approval_id) _ _ s
          (not_waiting p.grounds) (gate_allows p.grounds)))

-- With a session every action that the policy permits is allowed: the evaluation returns, and with
-- the decision ALLOW.
pub Permitted-evaluate_action :
    (digest : Dict → String) (now : ℕ) (request : ActionRequest) (s : Store)
    → Permitted digest now s.view.billing.approvals request
        (classify request.action_type request.params)
        (compute_action_hash digest request)
    → Allows (evaluate_action digest true now request) s
unfolding evaluate_action
Permitted-evaluate_action digest now request s p = authorize-Allows digest now request _ _ s p
