-- ===== src/Authority/Schemas.antt =====
-- app/core/authority/schemas.py: requests, decisions, and the hash that binds an approval to the
-- action it was given for. `digest` stands for `sha256` of `json.dumps(…, sort_keys=True)`.
pub mod Laws
use multi_agent_ai_system.Prelude.{
  ℕ, String, str_eq, Bool, true, false, not, ◌&&◌, ◌||◌, Option, none, some, List, if◌then◌else◌,
}
use multi_agent_ai_system.Prelude.Text.{lower, strip}
use multi_agent_ai_system.Prelude.Json.{Json, str, id_text, obj, Dict, end, entry}
use multi_agent_ai_system.Platform.Context.{AuthenticatedActor}
use multi_agent_ai_system.Authority.Risk.{ActionRiskLevel}

pub data ExecutionDecision : Type 0 where
  allow : ExecutionDecision
  waiting_approval : ExecutionDecision
  deny : ExecutionDecision

abbrev pub decision_value : ExecutionDecision → String
decision_value allow = "ALLOW"
decision_value waiting_approval = "WAITING_APPROVAL"
decision_value deny = "DENY"

pub record ActionRequest : Type 0 where
  pub action_type : String
  pub target : String
  pub tenant_id : ℕ
  pub actor : Option AuthenticatedActor
  pub agent_id : Option String
  pub params : Dict
  pub approval_id : Option ℕ
  pub correlation_id : Option String

-- The reason, a text for people, is left out.
pub record AuthorizationDecision : Type 0 where
  pub decision : ExecutionDecision
  pub risk_level : ActionRiskLevel
  pub approval_id : Option ℕ
  pub action_hash : String
  pub required_permissions : List String

-- `k.startswith("_")`
abbrev pub is_internal : String → Bool
is_internal String.[] = false
is_internal (String.◌∷◌ c cs) = str_eq (String.◌∷◌ c String.[]) "_"

-- `not k.startswith("_") and k != "approval_id"`
abbrev pub is_bound : String → Bool
is_bound k = not (is_internal k) && not (str_eq k "approval_id")

abbrev pub serializable_params : Dict → Dict
serializable_params end = end
serializable_params (entry k v d) =
    if is_bound k then entry k v (serializable_params d) else serializable_params d

module _ (digest : Dict → String) where
  unfoldable pub compute_hash : String → String → ℕ → Dict → String
  compute_hash action_type target tenant_id params = digest (
      entry "action_type" (str (lower (strip action_type))) (
        entry "target" (str (lower (strip target))) (
          entry "tenant_id" (id_text tenant_id)
            (entry "params" (obj (serializable_params params)) end))))

  unfoldable pub compute_action_hash : ActionRequest → String
  unfolding compute_hash
  compute_action_hash request =
      compute_hash request.action_type request.target request.tenant_id request.params
