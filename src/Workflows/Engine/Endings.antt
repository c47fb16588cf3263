-- ===== src/Workflows/Engine/Endings.antt =====
-- How the loop of `WorkflowEngine.run_execution_pipeline` ends.
use multi_agent_ai_system.Prelude.{
  ℕ, suc, ◌+◌, ◌∙◌, ◌≤◌, ◌<◌, ltb, String, Bool, false, Bool-cases, some, List, [], ◌∷◌, ◌++◌,
  length, ◌≡◌, refl, ap, inl, inr, arith,
}
use multi_agent_ai_system.Prelude.Json.{Json, Dict}
use multi_agent_ai_system.Core.Exceptions.{
  Exception, Result, ok, err, Action, Result-split, bind_ok, bind_err, ◌>>=◌, ◌>>◌,
}
use multi_agent_ai_system.Billing.Models.{Approval}
use multi_agent_ai_system.StateMachine.Table.{validate_transition}
use multi_agent_ai_system.StateMachine.WorkflowExecution.{validate_workflow_execution_transition}
use multi_agent_ai_system.Workflows.Models.{
  ActionDef, ActionResult, Executor, Settings, Run, params_of, action_type_of,
}
use multi_agent_ai_system.Workflows.Engine.{
  move_to, record_history, call_executor, pause, delay, retry_later, give_up, fail_step, step_done,
  complete, approval_row, handle, run_steps,
}

-- An end of the loop with what goes with it: COMPLETED after the last step, WAITING_APPROVAL with one
-- more approval, which is PENDING and belongs to the execution, WAITING_RETRY, or FAILED when no retry
-- is left; or what the executor raised for an action goes on, and the execution stays RUNNING.
pub data Ending {W : Type 0} (execute : Executor W) (steps : ℕ) (before : List Approval)
    (o : Result (Unit {0})) (r : Run W) : Type 0 where
  completed :
      o ≡ ok tt
      → r.execution.status ≡ "COMPLETED"
      → r.execution.current_step ≡ steps
      → r.approvals ≡ before
      → Ending execute steps before o r
  paused :
      (appr : Approval)
      → o ≡ ok tt
      → r.execution.status ≡ "WAITING_APPROVAL"
      → r.approvals ≡ before ++ appr ∷ []
      → appr.status ≡ "PENDING"
      → appr.workflow_execution_id ≡ some r.execution.id
      → appr.tenant_id ≡ r.execution.tenant_id
      → Ending execute steps before o r
  waiting :
      o ≡ ok tt
      → r.execution.status ≡ "WAITING_RETRY"
      → r.approvals ≡ before
      → Ending execute steps before o r
  failed :
      o ≡ ok tt
      → r.execution.status ≡ "FAILED"
      → r.approvals ≡ before
      → ltb r.execution.retry_count r.execution.max_retries ≡ false
      → Ending execute steps before o r
  raised :
      (e : Exception) (a : ActionDef) (context : Dict) (w : W)
      → o ≡ err e
      → (execute (action_type_of a) (params_of a) context r.execution.tenant_id w).0 ≡ err e
      → r.execution.status ≡ "RUNNING"
      → r.execution.current_step < steps
      → r.approvals ≡ before
      → Ending execute steps before o r

abbrev pub IsBounded : {W : Type 0} → Run W → Type 0
IsBounded r = r.execution.retry_count ≤ r.execution.max_retries

-- The call ends in one of these ways, and with no more retries than allowed.
abbrev pub Ends :
    {W : Type 0} → Executor W → ℕ → List Approval → Action (Run W) (Unit {0}) → Run W → Type 0
Ends {W} execute steps before m r =
    (o : Result (Unit {0})) × (r' : Run W) × (m r ≡ (o, r'))
    × Ending execute steps before o r'
    × IsBounded r'

abbrev pub running : {W : Type 0} → Run W → Run W
running r = record r { execution = record r.execution { status = "RUNNING" } }

module _ {W : Type 0} (digest : Dict → String) (execute : Executor W)
    (evaluate_conditions : Json → Dict → Result Bool) (settings : Settings) (now steps : ℕ)
    (before : List Approval) where
  paused-Ends :
      (a : ActionDef) (res : ActionResult) (r : Run W)
      → r.approvals ≡ before
      → IsBounded r
      → Ends execute steps before
          (pause digest execute evaluate_conditions settings now a res)
          (running r)
  unfolding pause move_to record_history ◌>>=◌ ◌>>◌ validate_workflow_execution_transition
      validate_transition
  paused-Ends a res r same b =
      let appr =
        approval_row digest execute evaluate_conditions settings now r.next_id (running r).execution
          (params_of a) res.approval_data in
      (
        ok tt,
        _,
        refl,
        Ending.paused appr refl refl (ap (λ l. l ++ appr ∷ []) same) refl refl refl,
        b,
      )

  delay-Ends :
      (res : ActionResult) (r : Run W)
      → r.approvals ≡ before
      → IsBounded r
      → Ends execute steps before
          (delay digest execute evaluate_conditions settings now res)
          (running r)
  unfolding delay move_to record_history ◌>>=◌ ◌>>◌ validate_workflow_execution_transition
      validate_transition
  delay-Ends res r same b = (ok tt, _, refl, Ending.waiting refl refl same, b)

  fail-Ends :
      (res : ActionResult) (r : Run W)
      → r.approvals ≡ before
      → IsBounded r
      → Ends execute steps before
          (fail_step digest execute evaluate_conditions settings now res)
          (running r)
  unfolding fail_step retry_later give_up move_to record_history ◌>>=◌ ◌>>◌
      validate_workflow_execution_transition validate_transition
  fail-Ends res r same b = elim (Bool-cases (ltb r.execution.retry_count r.execution.max_retries)) [
    | inl more ↦ rw more (ok tt, _, refl, Ending.waiting refl refl same, ground arith)
    | inr out ↦ rw out (ok tt, _, refl, Ending.failed refl refl same out, b)
  ]

  complete-Ends :
      (r : Run W)
      → r.execution.current_step ≡ steps
      → r.approvals ≡ before
      → IsBounded r
      → Ends execute steps before
          (complete digest execute evaluate_conditions settings now)
          (running r)
  unfolding complete move_to ◌>>=◌ ◌>>◌ validate_workflow_execution_transition validate_transition
  complete-Ends r last same b = (ok tt, _, refl, Ending.completed refl refl last same, b)

  -- An action that succeeds leads to the rest of the loop, one step on.
  stepped : ActionDef → ActionResult → Run W → Run W
  stepped a res r = (step_done digest execute evaluate_conditions settings now a res r).1

  handle-Ends :
      (a : ActionDef) (res : ActionResult) (next : Action (Run W) (Unit {0})) (r : Run W)
      → r.approvals ≡ before
      → IsBounded r
      → ((r1 : Run W)
          → r1.execution.current_step ≡ suc r.execution.current_step
          → r1.approvals ≡ before
          → IsBounded r1
          → Ends execute steps before next (running r1))
      → Ends execute steps before
          (handle digest execute evaluate_conditions settings now a res next)
          (running r)
  unfolding handle stepped step_done record_history ◌>>=◌ ◌>>◌
  handle-Ends a res next r same b go = elim (Bool-cases res.requires_approval) [
    | inl asks ↦ rw asks (paused-Ends a res r same b)
    | inr free ↦ elim (Bool-cases res.is_delayed) [
      | inl late ↦ rw (free, late) (delay-Ends res r same b)
      | inr prompt ↦ elim (Bool-cases res.success) [
        | inr bad ↦ rw (free, prompt, bad) (fail-Ends res r same b)
        | inl good ↦ rw (free, prompt, good) (go (stepped a res (running r)) refl same b)
      ]
    ]
  ]

  -- The state in which the executor leaves the run.
  abbrev left_by : ActionDef → Run W → Result ActionResult × Run W
  left_by a r = call_executor digest execute evaluate_conditions settings now a r

  pub loop-Ends :
      (rest : List ActionDef) (r : Run W)
      → r.execution.current_step + length rest ≡ steps
      → r.approvals ≡ before
      → IsBounded r
      → Ends execute steps before
          (run_steps digest execute evaluate_conditions settings now rest)
          (running r)
  unfolding run_steps call_executor
  loop-Ends [] r count same b = complete-Ends r (ground arith) same b
  loop-Ends (a ∷ rest) r count same b =
      let o =
        execute (action_type_of a) (params_of a) r.execution.context r.execution.tenant_id
          r.world in
      let next = run_steps digest execute evaluate_conditions settings now rest in
      let r0 : Run W = record r { execution = record r.execution { context = o.1 }; world = o.2 } in
      elim (Result-split o.0) [
        | inr (e, why) ↦ (
          err e,
          running r0,
          bind_err (call_executor digest execute evaluate_conditions settings now a)
              (λ res. handle digest execute evaluate_conditions settings now a res next) (running r)
              (running r0) e (ap (λ (x : Result ActionResult). (x, running r0)) why),
          Ending.raised e a r.execution.context r.world refl why refl (ground arith) same,
          b,
        )
        | inl (res, done) ↦
            let (out, r', h, ends, b') =
              handle-Ends a res next r0 same b
                λ r1 step same1 b1. loop-Ends rest r1 (ground arith) same1 b1 in
            (
              out,
              r',
              bind_ok (call_executor digest execute evaluate_conditions settings now a)
                    (λ x. handle digest execute evaluate_conditions settings now a x next)
                    (running r) (running r0) res
                    (ap (λ (x : Result ActionResult). (x, running r0)) done)
                  ∙ h,
              ends,
              b',
            )
      ]
