-- ===== src/Approvals/Consent.antt =====
-- What the decisions of `ApprovalService` leave for the gate of `ActionAuthorizationService`.
use multi_agent_ai_system.Prelude.{
  ℕ, ◌==◌, String, Bool, true, false, not, ◌&&◌, Option, none, some, List, [], ◌∷◌, select, ◌≡◌,
  refl, subst, ◌⊎◌, inl, inr,
}
use multi_agent_ai_system.Prelude.Json.{Json, boolean, str, Dict, get, put, get-put}
use multi_agent_ai_system.Core.Exceptions.{ok, Action}
use multi_agent_ai_system.Core.Triples.{
  Triple, Found, bind_rule, consequence, query_rule, or_raise_rule,
}
use multi_agent_ai_system.Billing.Models.{Approval}
use multi_agent_ai_system.Platform.Context.{AuthenticatedActor}
use multi_agent_ai_system.Platform.Store.{Store, save_approval}
use multi_agent_ai_system.Authority.Risk.{is_true}
use multi_agent_ai_system.Authority.Checks.{is_expired, matches, owner_approved}
use multi_agent_ai_system.Authority.Service.{stored_hash}
use multi_agent_ai_system.Approvals.{
  is_platform_owner, is_severe, is_self_approval, signed, get_approval, resume_if, user_or_owner,
}

abbrev pub Any : Store → Type 0
Any s = Unit

pub signed-true :
    (actor : Option AuthenticatedActor) (meta : Dict)
    → is_platform_owner actor ≡ true
    → is_true (get "decided_by_is_platform_owner" (signed actor meta)) ≡ true
signed-true none meta h = cc
signed-true (some a) meta h =
    rw
      (
        h,
        get-put "decided_by_user_id" "decided_by_is_platform_owner" (str (user_or_owner a))
            (put "decided_by_is_platform_owner" (boolean true) meta),
        get-put "decided_by_is_platform_owner" "decided_by_is_platform_owner" (boolean true) meta,
      )
      refl

pub owned : (a b : Bool) → (a && not b) ≡ false → (a ≡ false) ⊎ (b ≡ true)
owned true true h = inr refl
owned true false h = cc
owned false b h = inl refl

module _ (active_actor : Option AuthenticatedActor) (digest : Dict → String)
    (resume : Approval → Option Dict → Action Store (Unit {0})) (now tenant_id approval_id : ℕ)
    (decided_by : String) (s0 : Store) where
  abbrev pub found : List Approval
  found = select (λ a. matches a approval_id tenant_id) s0.view.billing.approvals

  abbrev pub saved_store : Approval → Store
  saved_store a = (save_approval a s0).1

  -- What `approve` does when it returns `a` in the store `s'`: the one approval of the identifier and the
  -- tenant was PENDING and had not expired; it was saved as APPROVED, decided now by the one that the call
  -- names, who passes the test of self-approval, with the signature of a platform owner at a high or
  -- critical risk, and bound to the same action; the resumption ran on that row; what it left is
  -- committed, and `a` is the row of the identifier there.
  pub record IsApproved (reason : Option String) (a : Approval) (s' : Store) : Type 0 where
    pub row : Approval
    pub only : found ≡ row ∷ []
    pub was_pending : row.status ≡ "PENDING"
    pub current : is_expired now row ≡ false
    pub decided : Approval
    pub is_approved : decided.status ≡ "APPROVED"
    pub decided_now : decided.decided_at ≡ some now
    pub decider : decided.decided_by ≡ some decided_by
    pub same_risk : decided.risk_level ≡ row.risk_level
    pub not_self : is_self_approval active_actor row decided_by ≡ false
    pub by_owner : (is_severe row.risk_level ≡ false) ⊎ (owner_approved decided ≡ true)
    pub same_action : stored_hash digest decided ≡ stored_hash digest row
    pub resumed : Store
    pub resumption :
        resume_if active_actor digest resume now decided none (saved_store decided)
        ≡ (ok tt, resumed)
    pub kept : s' ≡ record resumed { stored = resumed.view }
    pub returned : select (λ r. r.id == row.id) s'.view.billing.approvals ≡ a ∷ []

  abbrev pub At : Store → Type 0
  At s = s ≡ s0

  pub found_one : Triple At (get_approval tenant_id approval_id) (λ a s. At s × (found ≡ a ∷ [])) At
  unfolding get_approval
  found_one =
      let rows : Store → List Approval =
        λ s. select (λ a. matches a approval_id tenant_id) s.view.billing.approvals in
      consequence At At (λ a s. At s × (rows s ≡ a ∷ [])) (λ a s. At s × (found ≡ a ∷ [])) At At
        (get_approval tenant_id approval_id) (λ s p. p)
        (λ a s p. (p.0, subst (λ x. rows x ≡ a ∷ []) p.0 p.1)) (λ s p. p)
        (bind_rule At (λ o s. At s × Found (rows s) o) (λ a s. At s × (rows s ≡ a ∷ [])) At _ _
          (query_rule At rows) λ o. or_raise_rule At rows o _)

  abbrev ResumedAs : Approval → Store → Type 0
  ResumedAs decided x =
      resume_if active_actor digest resume now decided none (saved_store decided) ≡ (ok tt, x)

  -- The store that the resumption leaves, committed.
  abbrev CommittedAs : Approval → Store → Type 0
  CommittedAs decided s = (x : Store) × ResumedAs decided x × (s ≡ record x { stored = x.view })

  abbrev rows_of : Approval → Store → List Approval
  rows_of decided s = select (λ r. r.id == decided.id) s.view.billing.approvals

  abbrev Refreshed : Approval → Approval → Store → Type 0
  Refreshed decided a s = CommittedAs decided s × (rows_of decided s ≡ a ∷ [])

  pub pending_of : (b : Bool) → not b ≡ false → b ≡ true
  pending_of true h = refl
  pending_of false h = cc
