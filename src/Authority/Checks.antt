-- ===== src/Authority/Checks.antt =====
-- app/core/authority/service.py: the tests of `evaluate_action` on a request and on an approval.
use multi_agent_ai_system.Prelude.{
  ℕ, ◌==◌, ltb, String, str_eq, mem_str, Bool, true, false, not, ◌&&◌, ◌||◌, Option, none, some, [],
  ◌∷◌, if◌then◌else◌,
}
use multi_agent_ai_system.Prelude.Text.{lower}
use multi_agent_ai_system.Prelude.Json.{Json, obj, Dict, end, get, or_empty, truthy, is_text}
use multi_agent_ai_system.Core.Exceptions.{Exception, Result, ok, err}
use multi_agent_ai_system.Billing.Models.{Approval}
use multi_agent_ai_system.Authority.Risk.{
  ActionRiskLevel, low, medium, is_true, get_required_action_permission,
}
use multi_agent_ai_system.Authority.Schemas.{ActionRequest}

-- `t or ""`, and whether there is a text that is not empty
abbrev pub text_of : Option String → String
text_of none = ""
text_of (some t) = t

abbrev pub is_none : {A : Type 0} → Option A → Bool
is_none none = true
is_none (some _) = false

unfoldable pub crosses_tenant : ActionRequest → Bool
crosses_tenant request = elim request.actor [
  | none ↦ false
  | some a ↦ elim a.tenant_id [ none ↦ false | some t ↦ not (t == request.tenant_id) ]
]

unfoldable pub is_owner_ai_target : ActionRequest → Bool
is_owner_ai_target request =
    mem_str request.action_type ("owner_ai" ∷ "run_owner_ai" ∷ "call_owner_ai" ∷ [])
    || str_eq request.target "owner_ai"
    || is_text "owner_ai" (get "agent_name" request.params)

unfoldable pub by_platform_owner : ActionRequest → Bool
by_platform_owner request = elim request.actor [ none ↦ false | some a ↦ a.is_platform_owner ]

unfoldable pub is_owner_ai_actor : ActionRequest → Bool
is_owner_ai_actor request =
    str_eq (text_of request.agent_id) "owner_ai"
    || elim request.actor [ none ↦ false | some a ↦ str_eq a.role "owner_ai" ]

-- `request.actor and required_perm in request.actor.permissions`
unfoldable pub has_permission : ActionRequest → Bool
has_permission request = elim request.actor [
  | none ↦ false
  | some a ↦ mem_str (get_required_action_permission request.action_type) a.permissions
]

abbrev pub is_low : ActionRiskLevel → Bool
is_low low = true
is_low _ = false

abbrev pub is_medium : ActionRiskLevel → Bool
is_medium medium = true
is_medium _ = false

unfoldable pub self_approved : ActionRequest → Approval → Bool
unfolding lower
self_approved request appr =
    let decided = lower (text_of appr.decided_by) in
    let agent = lower (text_of request.agent_id) in
    str_eq (text_of appr.decided_by) ""
    || mem_str decided ("owner_ai" ∷ "agent:owner_ai" ∷ "agent_owner_ai" ∷ [])
    || str_eq decided (lower appr.requested_by)
    || (not (str_eq agent "") && str_eq decided agent)

unfoldable pub owner_approved : Approval → Bool
owner_approved appr = is_true (get "decided_by_is_platform_owner" (or_empty appr.meta_data))

abbrev pub is_decided : Approval → Bool
is_decided appr = mem_str appr.status ("APPROVED" ∷ "MODIFIED" ∷ [])

unfoldable pub is_expired : ℕ → Approval → Bool
is_expired now appr = elim appr.expires_at [ none ↦ false | some t ↦ ltb t now ]

-- The parameters that an approval keeps, for `compute_hash`: `params or {}`, where what is true and
-- no dictionary has no `items`.
unfoldable pub stored_params : Option Json → Result Dict
stored_params none = ok end
stored_params (some (obj d)) = ok d
stored_params (some j) = if truthy j then err Exception.attribute_error else ok end

abbrev pub matches : Approval → ℕ → ℕ → Bool
matches appr approval_id tenant_id = appr.id == approval_id && appr.tenant_id == tenant_id
