-- ===== src/Agents/Orchestrator.antt =====
-- app/agents/owner_ai/orchestrator.py: `OwnerAIOrchestrator.orchestrate`, over the registry of agents and
-- the task service. Two other components are its parameters: `prepare` works out the health of the
-- business and assembles the context, and answers with the first evidence and the facts, and
-- `recommend` stores a recommendation and answers with its suggested action.
pub mod Laws
use Prim.Native.String.{◌++◌ as concat}
use text.Mathlib.Text.{find?}
use multi_agent_ai_system.Prelude.{
  ℕ, ◌+◌, ltb, leb, String, str_eq, mem_str, Bool, true, false, not, ◌&&◌, ◌||◌, Option, none, some,
  List, [], ◌∷◌, ◌++◌, length, if◌then◌else◌,
}
use multi_agent_ai_system.Prelude.Int.{ℤ, ◌+ℤ◌, leb_ℤ}
use multi_agent_ai_system.Prelude.Text.{lower, decimal}
use multi_agent_ai_system.Prelude.Json.{Json, str, arr, obj, Items, nil, cons, Dict, end, entry}
use multi_agent_ai_system.Core.Exceptions.{
  Exception, Result, ok, err, Action, pure, gets, modify, attempt, ◌>>=◌, ◌>>◌,
}
use multi_agent_ai_system.Tasks.{TaskRow, TaskStore, TaskDraft, create_task, update_status}
use multi_agent_ai_system.Agents.Schemas.{
  AgentRequest, AgentResult, AgentRequestStatus, completed, partial, waiting_approval, failed,
  blocked, status_value,
}
use multi_agent_ai_system.Agents.Registry.{max_delegation_depth}
use multi_agent_ai_system.Agents.Desk.{
  Progress, OwnerAiExecution, Desk, nothing_done, Order, mentions, target_agents, append_items,
  filled, evidence_of, on_tasks, note, on_execution, task_draft, agent_request, finding_json,
}
use multi_agent_ai_system.Agents.Findings.{
  causes_of, join, findings_summary, texts, is_empty, final_status,
}

module _ {W : Type 0} (now : ℕ) (order : Order) where
  abbrev pub set_status : ℕ → String → Option Dict → Option String → Action (Desk W) (Unit {0})
  set_status id status result error =
      on_tasks (update_status now order.tenant_id id status result error) >>= λ _. pure tt

  -- What the status of a result does to the task and to the run.
  unfoldable pub on_status : ℕ → AgentResult → AgentRequestStatus → Action (Desk W) (Unit {0})
  on_status id res completed =
      set_status id "COMPLETED" (some (entry "finding" (finding_json res.finding) end)) none
  on_status id res failed =
      note (λ p. record p { has_partial_failure = true }) >> set_status id "FAILED" none res.error
  on_status id res blocked =
      note (λ p. record p { has_partial_failure = true }) >> set_status id "FAILED" none res.error
  on_status id res waiting_approval =
      note (λ p. record p { needs_approval = true; approval_id = res.approval_id })
      >> set_status id "WAITING_APPROVAL" none none
  on_status id res _ = pure tt

module _ {W : Type 0} (delegate : AgentRequest → Action (Desk W) AgentResult)
    (text_of : Exception → String) (first_letters : String → String) (now : ℕ) (order : Order) where
  -- The body of the `try` for one agent.
  unfoldable pub consult : ℕ → String → Dict → Action (Desk W) (Unit {0})
  unfolding on_status
  consult id target context = do
    res ← delegate (agent_request order target context)
    note (λ p. record p { collected_results = p.collected_results ++ res ∷ [] })
    on_status now order id res res.status
    note (λ p. record p { evidence_list = append_items p.evidence_list (evidence_of target res) })

  -- The handler of what was raised for one agent.
  abbrev pub recover : ℕ → Result (Unit {0}) → Action (Desk W) (Unit {0})
  recover id (ok _) = pure tt
  recover id (err e) =
      note (λ p. record p { has_partial_failure = true })
      >> set_status now order id "FAILED" none (some (text_of e))

  -- One agent: its task, the request, and the task again when something was raised.
  unfoldable pub dispatch_one : (ℕ → Dict) → String → Action (Desk W) (Unit {0})
  unfolding consult
  dispatch_one context_of target = do
    task ← on_tasks (create_task now order.tenant_id (task_draft first_letters order target))
    note (λ p. record p {
      tasks_created = p.tasks_created ++ task.id ∷ [];
      agents_called = p.agents_called ++ target ∷ [];
    })
    outcome ← attempt (consult task.id target (context_of task.id))
    recover task.id outcome

  -- The loop over the agents, with its limit of ten calls.
  unfoldable pub dispatch_all : (ℕ → Dict) → List String → Action (Desk W) (Unit {0})
  unfolding dispatch_one
  dispatch_all context_of [] = pure tt
  dispatch_all context_of (target ∷ targets) =
      let rest = dispatch_all context_of targets in
      gets (λ s. s.progress.agents_called) >>= λ agents_called.
      if leb 10 (length agents_called) then pure tt else dispatch_one context_of target >> rest

module _ {W : Type 0} (delegate : AgentRequest → Action (Desk W) AgentResult)
    (prepare : Action (Desk W) (Items × Items × (ℕ → Dict)))
    (recommend : String → Progress → Action (Desk W) String) (text_of : Exception → String)
    (first_letters : String → String) (now : ℕ) (order : Order) where
  abbrev pub consolidated : Items → String → Progress → AgentResult
  consolidated facts suggested_action p = record {
    request_id = order.request_id;
    agent = "owner_ai";
    status = final_status p;
    finding = some (findings_summary p.collected_results);
    evidence = p.evidence_list;
    recommendation = some suggested_action;
    confidence = if p.has_partial_failure then 7000 else 9000;
    actions =
        cons
          (obj (
            entry "action" (str "consolidated_report") (
              entry "facts" (arr facts)
                (entry "causes" (arr (texts (causes_of p.collected_results))) end))))
          nil;
    needs_approval = p.needs_approval;
    approval_id = p.approval_id;
    error = none;
    correlation_id = order.correlation_id;
  }

  abbrev pub plain : AgentRequestStatus → String → AgentResult
  plain status error = record {
    request_id = order.request_id;
    agent = "owner_ai";
    status = status;
    finding = none;
    evidence = nil;
    recommendation = none;
    confidence = 10000;
    actions = nil;
    needs_approval = false;
    approval_id = none;
    error = some error;
    correlation_id = order.correlation_id;
  }

  abbrev pub set_execution_status : String → Action (Desk W) (Unit {0})
  set_execution_status status = on_execution (λ x. record x { status = status })

  -- The body of the outer `try`.
  unfoldable pub investigate : Action (Desk W) AgentResult
  unfolding dispatch_all
  investigate = do
    set_execution_status "PLANNING"
    prepared ← prepare
    note (λ p. record p { evidence_list = prepared.0 })
    set_execution_status "DELEGATING"
    dispatch_all delegate text_of first_letters now order prepared.2 (target_agents order.objective)
    set_execution_status "ANALYZING"
    p ← gets (λ s. s.progress)
    suggested_action ← recommend (findings_summary p.collected_results) p
    on_execution (λ x. record x {
      status = status_value (final_status p);
      completed_at = some now;
      agents_called = p.agents_called;
      tasks_created = p.tasks_created;
    })
    gets (λ s. consolidated prepared.1 suggested_action s.progress)

  abbrev pub begin : Action (Desk W) (Unit {0})
  begin s = (
    ok tt,
    record s {
      progress = nothing_done;
      execution = record {
        tenant_id = order.tenant_id;
        objective = order.objective;
        status = "CREATED";
        started_at = now;
        completed_at = none;
        agents_called = [];
        tasks_created = [];
        error = none;
      };
    },
  )

  abbrev pub on_outcome : Result AgentResult → Action (Desk W) AgentResult
  on_outcome (ok result) s = (ok result, s)
  on_outcome (err e) s = (
    ok (plain failed (concat "Orchestration failure: " (text_of e))),
    record s {
      execution = record s.execution {
        status = "FAILED";
        completed_at = some now;
        error = some (text_of e);
      };
    },
  )

  -- The text of the refusal is without its two numbers.
  unfoldable pub orchestrate : Action (Desk W) AgentResult
  unfolding investigate
  orchestrate =
      if leb_ℤ max_delegation_depth order.delegation_depth
      then pure (plain blocked "Orchestration delegation depth limit exceeded")
      else do begin; outcome ← attempt investigate; on_outcome outcome
