-- ===== src/Approvals.antt =====
-- app/core/approvals/service.py: `ApprovalService`. The arguments of the section are the actor of the
-- request, the digest of the hash, `_resume_workflow_execution`, and the time of the call.
pub mod Consent
mod Tests
use text.Mathlib.Text.{find?}
use multi_agent_ai_system.Prelude.{
  ℕ, ◌==◌, String, str_eq, mem_str, Bool, true, false, not, ◌&&◌, ◌||◌, Option, none, some, List,
  [], ◌∷◌, select, if◌then◌else◌,
}
use multi_agent_ai_system.Prelude.Text.{decimal, lower}
use multi_agent_ai_system.Prelude.Json.{Json, boolean, str, obj, Dict, put, or_empty}
use multi_agent_ai_system.Core.Exceptions.{
  Exception, app_error, Action, pure, raise, raise_if, scalar_one_or_none, or_raise, ◌>>=◌, ◌>>◌,
}
use multi_agent_ai_system.Billing.Models.{Approval}
use multi_agent_ai_system.Platform.Context.{AuthenticatedActor}
use multi_agent_ai_system.Platform.Store.{Store, commit, save_approval}
use multi_agent_ai_system.Authority.Risk.{ActionRiskLevel, critical, severe, classify}
use multi_agent_ai_system.Authority.Schemas.{compute_hash}
use multi_agent_ai_system.Authority.Checks.{is_expired, matches}

-- `needle in text`
abbrev pub within : String → String → Bool
within needle text = elim (find? text needle) [ none ↦ false | some i ↦ true ]

abbrev pub is_platform_owner : Option AuthenticatedActor → Bool
is_platform_owner none = false
is_platform_owner (some a) = a.is_platform_owner

-- `approval.risk_level in ("HIGH", "CRITICAL")`
abbrev pub is_severe : String → Bool
is_severe risk_level = mem_str risk_level ("HIGH" ∷ "CRITICAL" ∷ [])

abbrev has_agent_role : Option AuthenticatedActor → Bool
has_agent_role none = false
has_agent_role (some a) = mem_str a.role ("owner_ai" ∷ "agent:owner_ai" ∷ [])

-- Whether an agent decides, or the one that asked and is an agent.
unfoldable pub is_self_approval : Option AuthenticatedActor → Approval → String → Bool
unfolding lower
is_self_approval actor approval decided_by =
    let decided = lower decided_by in
    mem_str decided ("owner_ai" ∷ "agent:owner_ai" ∷ "agent_owner_ai" ∷ [])
    || has_agent_role actor
    || (str_eq decided (lower approval.requested_by)
        && (within "agent" decided || within "owner_ai" decided))

abbrev user_or_owner : AuthenticatedActor → String
user_or_owner a = elim a.user_id [ none ↦ "platform_owner" | some n ↦ decimal n ]

-- What a platform owner leaves in the metadata of a decision.
abbrev pub signed : Option AuthenticatedActor → Dict → Dict
signed none meta = meta
signed (some a) meta =
    if a.is_platform_owner
    then put "decided_by_user_id" (str (user_or_owner a))
        (put "decided_by_is_platform_owner" (boolean true) meta)
    else meta

unfoldable pub get_approval : ℕ → ℕ → Action Store Approval
get_approval tenant_id approval_id = do
  row ← λ s.
      scalar_one_or_none (select (λ a. matches a approval_id tenant_id) s.view.billing.approvals) s
  or_raise row (app_error 404)

-- `session.refresh(approval)`: the row of its identifier, whatever has become of it
unfoldable pub refresh_approval : Approval → Action Store Approval
refresh_approval approval = do
  row ← λ s. scalar_one_or_none (select (λ a. a.id == approval.id) s.view.billing.approvals) s
  or_raise row Exception.invalid_request_error

module _ (active_actor : Option AuthenticatedActor) (digest : Dict → String)
    (resume : Approval → Option Dict → Action Store (Unit {0})) (now : ℕ) where
  unfoldable pub resume_if : Approval → Option Dict → Action Store (Unit {0})
  resume_if approval modified_params = elim approval.workflow_execution_id [
    | none ↦ pure tt
    | some _ ↦ resume approval modified_params
  ]

  unfoldable pub expire_approval : Approval → Action Store Approval
  expire_approval approval = do
    save_approval (record approval { status = "EXPIRED" })
    commit
    raise (app_error 400)

  abbrev pub approved_row : Approval → String → Option String → Approval
  approved_row approval decided_by reason = record approval {
    status = "APPROVED";
    decided_at = some now;
    decided_by = some decided_by;
    decision_reason = reason;
    meta_data = some (signed active_actor (or_empty approval.meta_data));
  }

  -- The part after the approval is found to be PENDING and not expired. The resumption may change any
  -- row, this one too, which is read again.
  unfoldable pub approve_pending : Approval → String → Option String → Action Store Approval
  unfolding resume_if refresh_approval
  approve_pending approval decided_by reason = do
    raise_if (is_severe approval.risk_level && not (is_platform_owner active_actor)) (app_error 403)
    raise_if (is_self_approval active_actor approval decided_by) (app_error 403)
    let decided = approved_row approval decided_by reason
    save_approval decided
    resume_if decided none
    commit
    refresh_approval decided

  unfoldable pub approve : ℕ → ℕ → String → Option String → Action Store Approval
  unfolding get_approval expire_approval approve_pending
  approve tenant_id approval_id decided_by reason = do
    approval ← get_approval tenant_id approval_id
    raise_if (not (str_eq approval.status "PENDING")) (app_error 400)
    if is_expired now approval
        then expire_approval approval
        else approve_pending approval decided_by reason
