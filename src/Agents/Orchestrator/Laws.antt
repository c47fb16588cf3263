-- ===== src/Agents/Orchestrator/Laws.antt =====
-- What becomes of an orchestration (app/agents/owner_ai/orchestrator.py): its tasks are ASSIGNED from
-- the start, and the table of transitions (app/core/task_state.py) lets such a task only begin or be
-- cancelled.
use mathlib.Core.Bool.{false≢true}
use multi_agent_ai_system.Prelude.{
  ℕ, ◌<◌, leb, String, str_eq, Bool, true, false, not, Option, none, some, List, [], ◌∷◌, ◌++◌,
  length, ◌≡◌, refl, ◌∙◌, ap, sym, subst, arith, mem_str,
}
use multi_agent_ai_system.Prelude.Int.{leb_ℤ}
use multi_agent_ai_system.Prelude.Json.{Items, Dict}
use multi_agent_ai_system.Core.Exceptions.{
  Exception, Result, ok, err, Action, pure, gets, bind_err, ◌>>◌,
}
use multi_agent_ai_system.Core.Triples.{
  Holds, Triple, Keeps, bind_rule, consequence, Outcome, attempt_rule, case_rule,
}
use multi_agent_ai_system.StateMachine.Task.{
  invalid_task_transition, validate_task_status_transition,
}
use multi_agent_ai_system.Tasks.{TaskRow, TaskStore, create_task, update_status}
use multi_agent_ai_system.Tasks.Laws.{IsSound, rows_of, new_task_found, update_status-refused}
use multi_agent_ai_system.Agents.Schemas.{
  AgentRequest, AgentResult, AgentRequestStatus, completed, waiting_approval, failed, blocked,
}
use multi_agent_ai_system.Agents.Registry.{max_delegation_depth}
use multi_agent_ai_system.Agents.Desk.{
  Progress, Desk, Order, target_agents, on_tasks, note, task_draft, agent_request,
}
use multi_agent_ai_system.Agents.Orchestrator.{
  set_status, on_status, recover, consult, dispatch_one, dispatch_all, investigate, begin,
  on_outcome, orchestrate,
}

-- The statuses on which the orchestration moves the task.
abbrev pub finishes : AgentRequestStatus → Bool
finishes completed = true
finishes failed = true
finishes blocked = true
finishes waiting_approval = true
finishes _ = false

abbrev refused_status : String → Bool
refused_status status = mem_str status ("COMPLETED" ∷ "FAILED" ∷ "WAITING_APPROVAL" ∷ [])

module _ {W : Type 0} (tenant_id : ℕ) where
  abbrev pub Found : ℕ → List TaskRow → Desk W → Type 0
  Found id rows s = rows_of tenant_id id s.tasks ≡ rows

  abbrev pub Present : ℕ → List TaskRow → Desk W → Type 0
  Present id rows s = Found id rows s × (id < s.tasks.next_id)

  -- Agents that leave the tasks that are there as they were, and answer with a status on which the
  -- orchestration moves the task, or raise.
  abbrev pub Finishing : (AgentRequest → Action (Desk W) AgentResult) → Type 0
  Finishing delegate =
      (request : AgentRequest) (id : ℕ) (rows : List TaskRow)
      → Triple (Present id rows) (delegate request)
          (λ res s. Found id rows s × (finishes res.status ≡ true)) (Found id rows)

module _ {W : Type 0} (now : ℕ) (order : Order) (t : TaskRow)
    (assigned : t.life.status ≡ "ASSIGNED") where
  abbrev Row : Desk W → Type 0
  Row = Found order.tenant_id t.id (t ∷ [])

  not_moved :
      (status : String) (result : Option Dict) (error : Option String)
      → validate_task_status_transition "ASSIGNED" status ≡ err invalid_task_transition
      → Triple Row (set_status now order t.id status result error) (λ _ _. ⊥) Row
  not_moved status result error h s found =
      let refused =
        update_status-refused now order.tenant_id t.id status result error t s.tasks
          invalid_task_transition found
          (ap (λ x. validate_task_status_transition x status) assigned ∙ h) in
      let lifted : on_tasks (update_status now order.tenant_id t.id status result error) s
          ≡ (err invalid_task_transition, s) =
        ap (λ (o : Result TaskRow × TaskStore). (o.0, record s { tasks = o.1 })) refused in
      subst (Holds (λ _ _. ⊥) Row) (sym (bind_err _ _ s s invalid_task_transition lifted)) found

  noted :
      (f : Progress → Progress) (m : Action (Desk W) (Unit {0}))
      → Triple Row m (λ _ _. ⊥) Row
      → Triple Row (note f >> m) (λ _ _. ⊥) Row
  unfolding ◌>>◌
  noted f m h = bind_rule Row (λ _. Row) (λ _ _. ⊥) Row (note f) _ (λ s k. k) (λ _. h)

  on_status-Row :
      (res : AgentResult) (status : AgentRequestStatus)
      → finishes status ≡ true
      → Triple Row (on_status now order t.id res status) (λ _ _. ⊥) Row
  unfolding on_status validate_task_status_transition
  on_status-Row res completed h = not_moved "COMPLETED" _ none refl
  on_status-Row res failed h = noted _ _ (not_moved "FAILED" none res.error refl)
  on_status-Row res blocked h = noted _ _ (not_moved "FAILED" none res.error refl)
  on_status-Row res waiting_approval h = noted _ _ (not_moved "WAITING_APPROVAL" none none refl)
  on_status-Row res _ h = cc

  consult-Row :
      (delegate : AgentRequest → Action (Desk W) AgentResult) (text_of : Exception → String)
      (first_letters : String → String)
      → Finishing order.tenant_id delegate
      → (target : String) (context : Dict)
      → Triple
          (Present order.tenant_id t.id (t ∷ []))
          (consult delegate text_of first_letters now order t.id target context)
          (λ _ _. ⊥)
          Row
  unfolding consult ◌>>◌
  consult-Row delegate text_of first_letters h target context =
      bind_rule (Present order.tenant_id t.id (t ∷ []))
        (λ res s. Row s × (finishes res.status ≡ true)) (λ _ _. ⊥) Row _ _
        (h (agent_request order target context) t.id (t ∷ []))
        (λ res.
          bind_rule (λ s. Row s × (finishes res.status ≡ true))
            (λ _ s. Row s × (finishes res.status ≡ true)) (λ _ _. ⊥) Row _ _ (λ s k. k)
            (λ _.
              bind_rule (λ s. Row s × (finishes res.status ≡ true)) (λ _ _. ⊥) (λ _ _. ⊥) Row
                (on_status now order t.id res res.status) _
                (λ s k. on_status-Row res res.status k.1 s k.0) (λ _ s k. absurd k)))

abbrev Sound : {W : Type 0} → Desk W → Type 0
Sound s = IsSound s.tasks

-- No agent has been called yet.
abbrev pub Fresh : {W : Type 0} → Desk W → Type 0
Fresh s = IsSound s.tasks × (s.progress.agents_called ≡ [])

module _ {W : Type 0} (delegate : AgentRequest → Action (Desk W) AgentResult)
    (text_of : Exception → String) (first_letters : String → String) (now : ℕ) (order : Order)
    (h : Finishing order.tenant_id delegate) where
  -- A task that was just made for the agent.
  abbrev Made : TaskRow → Desk W → Type 0
  Made t s = Present order.tenant_id t.id (t ∷ []) s × (t.life.status ≡ "ASSIGNED")

  created :
      (target : String)
      → str_eq target "" ≡ false
      → Triple Sound
          (on_tasks (create_task now order.tenant_id (task_draft first_letters order target)))
          Made
          Sound
  unfolding create_task
  created target named s sound = (
    (
      new_task_found now order.tenant_id (task_draft first_letters order target) s.tasks sound,
      omega arith,
    ),
    rw named refl,
  )

  recover-Row :
      (t : TaskRow)
      → t.life.status ≡ "ASSIGNED"
      → (o : Result (Unit {0}))
      → Triple
          (Outcome (λ _ _. ⊥) (Found order.tenant_id t.id (t ∷ [])) o)
          (recover delegate text_of first_letters now order t.id o)
          (λ _ _. ⊥)
          (λ _. Unit)
  unfolding validate_task_status_transition
  recover-Row t assigned (ok _) s k = absurd k
  recover-Row t assigned (err e) s k =
      consequence (Row now order t assigned) (Row now order t assigned) (λ _ _. ⊥) (λ _ _. ⊥)
        (Row now order t assigned) (λ _. Unit) _ (λ s k. k) (λ _ s k. k) (λ s k. tt)
        (noted now order t assigned _ _
          (not_moved now order t assigned "FAILED" none (some (text_of e)) refl))
        s k

  dispatch_one-fails :
      (context_of : ℕ → Dict) (target : String)
      → str_eq target "" ≡ false
      → Triple Sound
          (dispatch_one delegate text_of first_letters now order context_of target)
          (λ _ _. ⊥)
          (λ _. Unit)
  unfolding dispatch_one ◌>>◌
  dispatch_one-fails context_of target named =
      bind_rule Sound Made (λ _ _. ⊥) (λ _. Unit) _ _
        (consequence Sound Sound Made Made Sound (λ _. Unit) _ (λ s k. k) (λ t s k. k) (λ s k. tt)
          (created target named))
        (λ t s made.
          bind_rule (Present order.tenant_id t.id (t ∷ []))
            (λ _. Present order.tenant_id t.id (t ∷ [])) (λ _ _. ⊥) (λ _. Unit)
            (note (λ p. record p {
              tasks_created = p.tasks_created ++ t.id ∷ [];
              agents_called = p.agents_called ++ target ∷ [];
            }))
            _ (λ s k. k)
            (λ _.
              bind_rule (Present order.tenant_id t.id (t ∷ []))
                (Outcome (λ _ _. ⊥) (Found order.tenant_id t.id (t ∷ []))) (λ _ _. ⊥) (λ _. Unit) _
                _
                (attempt_rule (Present order.tenant_id t.id (t ∷ [])) (λ _ _. ⊥)
                  (Found order.tenant_id t.id (t ∷ [])) (λ _. Unit)
                  (consult delegate text_of first_letters now order t.id target (context_of t.id))
                  (consult-Row now order t made.1 delegate text_of first_letters h target
                    (context_of t.id)))
                (λ o. recover-Row t made.1 o))
            s made.0)

  dispatch_all-fails :
      (context_of : ℕ → Dict) (target : String) (targets : List String)
      → str_eq target "" ≡ false
      → Triple Fresh
          (dispatch_all delegate text_of first_letters now order context_of (target ∷ targets))
          (λ _ _. ⊥)
          (λ _. Unit)
  unfolding dispatch_all ◌>>◌
  dispatch_all-fails context_of target targets named =
      bind_rule Fresh (λ called s. Sound s × (called ≡ [])) (λ _ _. ⊥) (λ _. Unit)
        (gets (λ s. s.progress.agents_called)) _ (λ s k. k)
        (λ called s k.
          case_rule Sound (λ _ _. ⊥) (λ _. Unit) (leb 10 (length called)) (pure tt)
            (dispatch_one delegate text_of first_letters now order context_of target
              >> dispatch_all delegate text_of first_letters now order context_of targets)
            (λ full.
              absurd (false≢true (subst (λ xs. leb 10 (length {A = String} xs) ≡ true) k.1 full)))
            (λ room.
              bind_rule Sound (λ _ _. ⊥) (λ _ _. ⊥) (λ _. Unit)
                (dispatch_one delegate text_of first_letters now order context_of target) _
                (dispatch_one-fails context_of target named) (λ _ s k. absurd k))
            s k.0)

abbrev named : List String → Bool
named [] = false
named (target ∷ targets) = not (str_eq target "")

target_agents_named : (objective : String) → named (target_agents objective) ≡ true
unfolding target_agents
target_agents_named objective = ground arith

-- How a run ends that did not get through.
abbrev pub Failed : {W : Type 0} → AgentResult → Desk W → Type 0
Failed result s = (result.status ≡ failed) × (s.execution.status ≡ "FAILED")

module _ {W : Type 0} (delegate : AgentRequest → Action (Desk W) AgentResult)
    (prepare : Action (Desk W) (Items × Items × (ℕ → Dict)))
    (recommend : String → Progress → Action (Desk W) String) (text_of : Exception → String)
    (first_letters : String → String) (now : ℕ) (order : Order)
    (h : Finishing order.tenant_id delegate) (prepares : Keeps Fresh prepare) where
  dispatches :
      (context_of : ℕ → Dict) (targets : List String)
      → named targets ≡ true
      → Triple Fresh
          (dispatch_all delegate text_of first_letters now order context_of targets)
          (λ _ _. ⊥)
          (λ _. Unit)
  dispatches context_of [] e = absurd (false≢true e)
  dispatches context_of (target ∷ targets) e =
      dispatch_all-fails delegate text_of first_letters now order h context_of target targets
        (ground arith)

  investigate-fails :
      Triple Fresh
        (investigate delegate prepare recommend text_of first_letters now order)
        (λ _ _. ⊥)
        (λ _. Unit)
  unfolding investigate ◌>>◌
  investigate-fails =
      bind_rule Fresh (λ _. Fresh) (λ _ _. ⊥) (λ _. Unit) _ _ (λ s k. k)
        (λ _.
          bind_rule Fresh (λ _. Fresh) (λ _ _. ⊥) (λ _. Unit) _ _
            (consequence Fresh Fresh (λ _. Fresh) (λ _. Fresh) Fresh (λ _. Unit) prepare (λ s k. k)
              (λ _ s k. k) (λ s k. tt) prepares)
            (λ prepared.
              bind_rule Fresh (λ _. Fresh) (λ _ _. ⊥) (λ _. Unit) _ _ (λ s k. k)
                (λ _.
                  bind_rule Fresh (λ _. Fresh) (λ _ _. ⊥) (λ _. Unit) _ _ (λ s k. k)
                    (λ _.
                      bind_rule Fresh (λ _ _. ⊥) (λ _ _. ⊥) (λ _. Unit) _ _
                        (dispatches prepared.2 (target_agents order.objective)
                          (target_agents_named order.objective))
                        (λ _ s k. absurd k)))))

  on_outcome-Failed :
      (o : Result AgentResult)
      → Triple
          (Outcome (λ _ _. ⊥) (λ _. Unit) o)
          (on_outcome delegate prepare recommend text_of first_letters now order o)
          Failed
          (λ _. ⊥)
  on_outcome-Failed (ok result) s k = absurd k
  on_outcome-Failed (err e) s k = (refl, refl)

  -- Where the agents leave the tasks that are there as they were and each answers with COMPLETED, FAILED,
  -- BLOCKED or WAITING_APPROVAL or raises, and the preparation keeps the store of tasks sound: above the
  -- limit of depth every orchestration ends with a result and a row that are FAILED.
  pub orchestrate-Failed :
      leb_ℤ max_delegation_depth order.delegation_depth ≡ false
      → Triple
          (λ s. IsSound s.tasks)
          (orchestrate delegate prepare recommend text_of first_letters now order)
          Failed
          (λ _. ⊥)
  unfolding orchestrate ◌>>◌
  orchestrate-Failed shallow =
      case_rule (λ s. IsSound s.tasks) Failed (λ _. ⊥)
        (leb_ℤ max_delegation_depth order.delegation_depth) _ _
        (λ deep. absurd (false≢true (sym shallow ∙ deep)))
        (λ _.
          bind_rule (λ s. IsSound s.tasks) (λ _. Fresh) Failed (λ _. ⊥)
            (begin delegate prepare recommend text_of first_letters now order) _ (λ s k. (k, refl))
            (λ _.
              bind_rule Fresh (Outcome (λ _ _. ⊥) (λ _. Unit)) Failed (λ _. ⊥) _ _
                (attempt_rule Fresh (λ _ _. ⊥) (λ _. Unit) (λ _. ⊥) _ investigate-fails)
                on_outcome-Failed))
