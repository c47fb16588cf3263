-- ===== src/Agents/Registry/Laws.antt =====
-- Which requests reach an agent, and as what (app/agents/base/registry.py).
use multi_agent_ai_system.Prelude.{
  String, str_eq, mem_str, lookup, true, false, ◌&&◌, Option, none, some, [], ◌∷◌, ◌≡◌, refl, inl,
  inr, arith, Bool-cases, Option-cases,
}
use multi_agent_ai_system.Prelude.Int.{ℤ, ◌+ℤ◌, leb_ℤ}
use multi_agent_ai_system.Core.Exceptions.{Exception, ok, err, agent_execution_error, Action, ◌>>=◌}
use multi_agent_ai_system.Platform.Context.{AuthenticatedActor}
use multi_agent_ai_system.Agents.Schemas.{AgentRequest, blocked, bare_result}
use multi_agent_ai_system.Agents.Agent.{AgentExecution, BaseAgent, run}
use multi_agent_ai_system.Agents.Registry.{
  max_delegation_depth, depth_exceeded, agent_disabled, owner_only, Registry, another_agent,
  owner_ai_refused, sub_request, get_agent, delegate_task,
}

-- The caller that the owner's agent answers: a platform owner, and not through a workflow or an agent
-- other than the owner's.
pub record FromOwner (active_actor : Option AuthenticatedActor) (request : AgentRequest)
    : Type 0 where
  pub actor : AuthenticatedActor
  pub present : active_actor ≡ some actor
  pub platform_owner : actor.is_platform_owner ≡ true
  pub direct : mem_str request.source ("workflow" ∷ "agent_delegation" ∷ []) ≡ false
  pub own : another_agent request.source_agent ≡ false

owner_ai_refused-FromOwner :
    (active_actor : Option AuthenticatedActor) (request : AgentRequest)
    → owner_ai_refused active_actor request ≡ false
    → FromOwner active_actor request
unfolding owner_ai_refused
owner_ai_refused-FromOwner none request h = cc
owner_ai_refused-FromOwner (some actor) request h = record {
  actor = actor;
  present = refl;
  platform_owner = ground arith;
  direct = ground arith;
  own = ground arith;
}

FromOwner-not_refused :
    (active_actor : Option AuthenticatedActor) (request : AgentRequest)
    → FromOwner active_actor request
    → owner_ai_refused active_actor request ≡ true
    → ⊥
unfolding owner_ai_refused
FromOwner-not_refused none request o h = let e = o.present in cc
FromOwner-not_refused (some actor) request o h =
    let e = o.present in
    let p = o.platform_owner in let d = o.direct in let w = o.own in ground arith

module _ {S : Type 0} (text_of : Exception → String)
    (record_execution : AgentExecution → Action S (Unit {0})) (agents : Registry S)
    (active_actor : Option AuthenticatedActor) where
  -- Why a request is refused: it is too deep, it is not for the one that asks, or its agent is disabled.
  pub data Refusal (request : AgentRequest) : Type 0 where
    too_deep : leb_ℤ (ℤ.pos 3) request.delegation_depth ≡ true → Refusal request
    not_owner :
        str_eq request.target_agent "owner_ai" ≡ true
        → ¬ (FromOwner active_actor request)
        → Refusal request
    disabled :
        (agent : BaseAgent S)
        → lookup request.target_agent agents ≡ some agent
        → agent.enabled ≡ false
        → Refusal request

  -- The request that is handed on: one step deeper, marked as a delegation unless it comes from a workflow
  -- or from outside, and else as it was.
  pub record Deeper (request sub : AgentRequest) : Type 0 where
    pub one_deeper : sub.delegation_depth ≡ request.delegation_depth +ℤ ℤ.pos 1
    pub same_source :
        mem_str request.source ("workflow" ∷ "api" ∷ []) ≡ true → sub.source ≡ request.source
    pub marked :
        mem_str request.source ("workflow" ∷ "api" ∷ []) ≡ false → sub.source ≡ "agent_delegation"
    pub else_same :
        sub ≡ record request { delegation_depth = sub.delegation_depth; source = sub.source }

  -- How a delegation ends.
  pub data Delegation (request : AgentRequest) (s : S) : Type 0 where
    refused :
        (error : String)
        → Refusal request
        → delegate_task text_of record_execution agents active_actor request s
          ≡ (ok (bare_result request request.target_agent blocked (some error)), s)
        → Delegation request s
    unknown :
        lookup request.target_agent agents ≡ none
        → delegate_task text_of record_execution agents active_actor request s
          ≡ (err agent_execution_error, s)
        → Delegation request s
    entered :
        (agent : BaseAgent S) (sub : AgentRequest)
        → lookup request.target_agent agents ≡ some agent
        → agent.enabled ≡ true
        → leb_ℤ (ℤ.pos 3) request.delegation_depth ≡ false
        → (str_eq request.target_agent "owner_ai" ≡ true → FromOwner active_actor request)
        → Deeper request sub
        → delegate_task text_of record_execution agents active_actor request s
          ≡ run text_of record_execution agent sub s
        → Delegation request s

  passed_gate :
      (request : AgentRequest)
      → (str_eq request.target_agent "owner_ai" && owner_ai_refused active_actor request) ≡ false
      → str_eq request.target_agent "owner_ai" ≡ true
      → FromOwner active_actor request
  passed_gate request h k = owner_ai_refused-FromOwner active_actor request (ground arith)

  closed_gate :
      (request : AgentRequest)
      → (str_eq request.target_agent "owner_ai" && owner_ai_refused active_actor request) ≡ true
      → Refusal request
  closed_gate request h =
      Refusal.not_owner (ground arith)
        (λ o. FromOwner-not_refused active_actor request o (ground arith))

  sub_request-Deeper : (request : AgentRequest) → Deeper request (sub_request request)
  sub_request-Deeper request = record {
    one_deeper = refl;
    same_source = λ h. rw h refl;
    marked = λ h. rw h refl;
    else_same = refl;
  }

  -- A request is refused without any effect, and then it is at depth 3 or deeper, or for the owner's
  -- agent but not from a platform owner who comes neither through a workflow nor through another agent,
  -- or its agent is disabled; or it names an agent that is not registered; or it is none of these and
  -- enters its agent one step deeper, marked as a delegation unless it comes from a workflow or the API.
  pub delegate_task-Delegation : (request : AgentRequest) (s : S) → Delegation request s
  unfolding delegate_task get_agent ◌>>=◌
  delegate_task-Delegation request s =
      elim (Bool-cases (leb_ℤ max_delegation_depth request.delegation_depth)) [
        | inl deep ↦
            Delegation.refused depth_exceeded (Refusal.too_deep deep)
              (rw (delegate_task, deep) refl)
        | inr shallow ↦
            elim (Bool-cases
              (str_eq request.target_agent "owner_ai" && owner_ai_refused active_actor request)) [
                | inl closed ↦
                    Delegation.refused owner_only (closed_gate request closed)
                      (rw (delegate_task, shallow, closed) refl)
                | inr open_ ↦ elim (Option-cases (lookup request.target_agent agents)) [
                  | inl missing ↦
                      Delegation.unknown missing (rw (delegate_task, shallow, open_, missing) refl)
                  | inr (agent, e) ↦ elim (Bool-cases agent.enabled) [
                    | inl enabled ↦
                        Delegation.entered agent (sub_request request) e enabled shallow
                          (passed_gate request open_) (sub_request-Deeper request)
                          (rw (delegate_task, shallow, open_, e, enabled) refl)
                    | inr off ↦
                        Delegation.refused (agent_disabled request.target_agent)
                          (Refusal.disabled agent e off)
                          (rw (delegate_task, shallow, open_, e, off) refl)
                  ]
                ]
              ]
      ]
