-- ===== src/Workflows/Executor/Gate.antt =====
-- What stands between a workflow and the effects of an action: `ActionExecutor.execute`
-- (app/core/workflows/actions.py) after `evaluate_action` (app/core/authority/service.py).
use multi_agent_ai_system.Prelude.{
  ℕ, String, true, false, Option, ◌≡◌, refl, ◌≢◌, ◌∙◌, ap, inl, inr, Bool-cases,
}
use multi_agent_ai_system.Prelude.Json.{Dict, get}
use multi_agent_ai_system.Core.Exceptions.{
  Exception, Result, ok, err, Action, Result-split, bind_ok, bind_err, ◌>>=◌,
}
use multi_agent_ai_system.Platform.Context.{AuthenticatedActor}
use multi_agent_ai_system.Platform.Store.{Store}
use multi_agent_ai_system.Authority.Risk.{severe, classify}
use multi_agent_ai_system.Authority.Schemas.{
  ActionRequest, AuthorizationDecision, ExecutionDecision, allow, waiting_approval, deny,
}
use multi_agent_ai_system.Authority.Service.{evaluate_action}
use multi_agent_ai_system.Authority.Service.Safety.{OwnerConsent, severe-OwnerConsent}
use multi_agent_ai_system.Workflows.Models.{ActionResult}
use multi_agent_ai_system.Workflows.Executor.{
  Python, Scene, is_forbidden, action_request, run_action, on_store, on_decision, execute_clean,
  execute, request_from, optional_str, or_value, or_null, parse_approval_id, target_value,
}

module _ (python : Python) (active_actor : Option AuthenticatedActor) (action_type : String)
    (params context : Dict) (tenant_id : ℕ) (request : ActionRequest) where
  -- The request that the gate is asked for an action of a workflow: its agent, its correlation and its
  -- approval are those of the parameters, or else of the context.
  pub record IsRequestOf : Type 0 where
    pub kind : request.action_type ≡ action_type
    pub tenant : request.tenant_id ≡ tenant_id
    pub asker : request.actor ≡ active_actor
    pub arguments : request.params ≡ params
    pub agent :
        optional_str (or_value (or_null (get "agent_id" params)) (or_null (get "agent_id" context)))
        ≡ ok request.agent_id
    pub correlation :
        optional_str (
          or_value (or_null (get "correlation_id" params)) (or_null (get "correlation_id" context)))
        ≡ ok request.correlation_id
    pub approval :
        request.approval_id
        ≡ parse_approval_id python (
            or_value (or_null (get "approval_id" params)) (
              or_value (or_null (get "_approval_id" params)) (or_null (get "approval_id" context))))
    pub target :
        request.target
        ≡ python.str_of (target_value python active_actor action_type params context tenant_id)

  abbrev agent_read : Result (Option String)
  agent_read =
      optional_str (or_value (or_null (get "agent_id" params)) (or_null (get "agent_id" context)))

  abbrev correlation_read : Result (Option String)
  correlation_read =
      optional_str
        (or_value (or_null (get "correlation_id" params)) (or_null (get "correlation_id" context)))

  request_from-IsRequestOf :
      (a c : Result (Option String))
      → agent_read ≡ a
      → correlation_read ≡ c
      → request_from python active_actor action_type params context tenant_id a c ≡ ok request
      → IsRequestOf
  request_from-IsRequestOf (ok a) (ok c) ea ec h = record {
    kind = cc;
    tenant = cc;
    asker = cc;
    arguments = cc;
    agent = cc;
    correlation = cc;
    approval = cc;
    target = cc;
  }
  request_from-IsRequestOf (ok a) (err e) ea ec h = cc
  request_from-IsRequestOf (err e) c ea ec h = cc

  action_request-IsRequestOf :
      action_request python active_actor action_type params context tenant_id ≡ ok request
      → IsRequestOf
  unfolding action_request
  action_request-IsRequestOf h = request_from-IsRequestOf agent_read correlation_read refl refl h

module _ {W : Type 0} (digest : Dict → String) (python : Python)
    (dispatch : ActionRequest → Dict → Action (Scene W) ActionResult) (now : ℕ)
    (active_actor : Option AuthenticatedActor) (action_type : String) (params context : Dict)
    (tenant_id : ℕ) (s : Scene W) where
  abbrev after : Result ActionResult × Scene W
  after = execute digest python dispatch now active_actor action_type params context tenant_id s

  -- How an execution ends: nothing has an effect in the world, or the gate allowed the request of the
  -- action and the action itself ran.
  pub data Gated : Type 0 where
    no_effect : after.1.world ≡ s.world → Gated
    allowed :
        (request : ActionRequest) (d : AuthorizationDecision) (store' : Store)
        → is_forbidden python params ≡ false
        → action_request python active_actor action_type params context tenant_id ≡ ok request
        → evaluate_action digest true now request s.store ≡ (ok d, store')
        → d.decision ≡ allow
        → after
          ≡ run_action digest python dispatch now active_actor action_type params context request
              (record s { store = store' })
        → Gated

  cleared :
      is_forbidden python params ≡ false
      → after
        ≡ execute_clean digest python dispatch now active_actor action_type params context tenant_id
            s
  unfolding execute
  cleared clean = rw (execute, clean) refl

  abbrev judge : ActionRequest → Action (Scene W) ActionResult
  judge request =
      on_store digest python dispatch now active_actor (evaluate_action digest true now request)
      >>= λ d.
          on_decision digest python dispatch now active_actor action_type params context tenant_id
            request d d.decision

  read_ok :
      (request : ActionRequest)
      → action_request python active_actor action_type params context tenant_id ≡ ok request
      → execute_clean digest python dispatch now active_actor action_type params context tenant_id s
        ≡ judge request s
  unfolding execute_clean
  read_ok request read = bind_ok _ _ s s request (ap (λ (r : Result ActionRequest). (r, s)) read)

  unreadable :
      (e : Exception)
      → action_request python active_actor action_type params context tenant_id ≡ err e
      → execute_clean digest python dispatch now active_actor action_type params context tenant_id s
        ≡ (err e, s)
  unfolding execute_clean
  unreadable e unread = bind_err _ _ s s e (ap (λ (r : Result ActionRequest). (r, s)) unread)

  unjudged :
      (request : ActionRequest) (e : Exception)
      → (evaluate_action digest true now request s.store).0 ≡ err e
      → judge request s
        ≡ (err e, record s { store = (evaluate_action digest true now request s.store).1 })
  unjudged request e raised =
      let store' = (evaluate_action digest true now request s.store).1 in
      bind_err _ _ s (record s { store = store' }) e
        (ap (λ (r : Result AuthorizationDecision). (r, record s { store = store' })) raised)

  decided :
      (request : ActionRequest) (d : AuthorizationDecision) (store' : Store)
      → is_forbidden python params ≡ false
      → action_request python active_actor action_type params context tenant_id ≡ ok request
      → evaluate_action digest true now request s.store ≡ (ok d, store')
      → after
        ≡ on_decision digest python dispatch now active_actor action_type params context tenant_id
            request d d.decision
            (record s { store = store' })
  decided request d store' clean read judged =
      cleared clean
      ∙ read_ok request read
      ∙ bind_ok _ _ s (record s { store = store' }) d
          (ap (λ (o : Result AuthorizationDecision × Store). (o.0, record s { store = o.1 }))
            judged)

  abbrev world_of : Result ActionResult × Scene W → W
  world_of o = o.1.world

  answered :
      (request : ActionRequest) (d : AuthorizationDecision) (store' : Store)
      → is_forbidden python params ≡ false
      → action_request python active_actor action_type params context tenant_id ≡ ok request
      → evaluate_action digest true now request s.store ≡ (ok d, store')
      → (decision : ExecutionDecision) → d.decision ≡ decision
      → after
        ≡ on_decision digest python dispatch now active_actor action_type params context tenant_id
            request d decision
            (record s { store = store' })
  answered request d store' clean read judged decision e =
      decided request d store' clean read judged
      ∙ ap
          (λ x.
            on_decision digest python dispatch now active_actor action_type params context tenant_id
              request d x (record s { store = store' }))
          e

  on_decision-Gated :
      (request : ActionRequest) (d : AuthorizationDecision) (store' : Store)
      → is_forbidden python params ≡ false
      → action_request python active_actor action_type params context tenant_id ≡ ok request
      → evaluate_action digest true now request s.store ≡ (ok d, store')
      → (decision : ExecutionDecision) → d.decision ≡ decision
      → Gated
  on_decision-Gated request d store' clean read judged allow e =
      Gated.allowed request d store' clean read judged e
        (answered request d store' clean read judged allow e)
  on_decision-Gated request d store' clean read judged waiting_approval e =
      Gated.no_effect (ap world_of (answered request d store' clean read judged waiting_approval e))
  on_decision-Gated request d store' clean read judged deny e =
      Gated.no_effect (ap world_of (answered request d store' clean read judged deny e))

  pub execute-Gated : Gated
  unfolding execute
  execute-Gated = elim (Bool-cases (is_forbidden python params)) [
    | inl forbidden ↦ Gated.no_effect (rw (execute, forbidden) refl)
    | inr clean ↦
        elim (Result-split
          (action_request python active_actor action_type params context tenant_id)) [
            | inr (e, unread) ↦ Gated.no_effect (ap world_of (cleared clean ∙ unreadable e unread))
            | inl (request, read) ↦
                let judged = evaluate_action digest true now request s.store in
                elim (Result-split judged.0) [
                  | inr (e, raised) ↦ Gated.no_effect (
                      ap world_of
                        (cleared clean ∙ read_ok request read ∙ unjudged request e raised))
                  | inl (d, j) ↦
                      on_decision-Gated request d judged.1 clean read
                        (ap (λ (r : Result AuthorizationDecision). (r, judged.1)) j) d.decision refl
                ]
          ]
  ]

  -- An action of high or critical risk that had an effect in the world did so on the one approval that
  -- its request names, which is decided and has not expired, and which a platform owner gave who is
  -- not the one that asked. The request is the action's own: its type, tenant, actor and parameters are
  -- those of the call, and its agent and its approval are read from the parameters, or else from the
  -- context.
  pub effect-OwnerConsent :
      severe (classify action_type params) ≡ true
      → after.1.world ≢ s.world
      → (request : ActionRequest) × IsRequestOf python active_actor action_type params context
          tenant_id request
        × OwnerConsent now s.store.view.billing.approvals request
  effect-OwnerConsent risky changed = elim execute-Gated [
    | Gated.no_effect same ↦ absurd (changed same)
    | Gated.allowed request d store' clean read judged e ran ↦
        let asked =
          action_request-IsRequestOf python active_actor action_type params context tenant_id
            request read in
        (
          request,
          asked,
          severe-OwnerConsent digest true now request s.store store' d
              (ap (λ t. severe (classify t request.params)) asked.kind
                ∙ ap (λ p. severe (classify action_type p)) asked.arguments
                ∙ risky)
              judged e,
        )
  ]
