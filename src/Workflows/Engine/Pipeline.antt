-- ===== src/Workflows/Engine/Pipeline.antt =====
-- `WorkflowEngine.run_execution_pipeline` from its start.
use multi_agent_ai_system.Prelude.{
  ℕ, ◌+◌, ◌≤◌, ltb, leb, String, mem_str, Bool, true, false, not, List, [], ◌∷◌, length, ◌≡◌, refl,
  ap, ◌∙◌, none, some, arith, if◌then◌else◌,
}
use multi_agent_ai_system.Prelude.Json.{Json, Dict, boolean, end, entry}
use multi_agent_ai_system.Billing.Models.{Approval}
use multi_agent_ai_system.Core.Exceptions.{
  Result, ok, err, Action, gets, lift, bind_ok, ◌>>=◌, ◌>>◌,
}
use multi_agent_ai_system.StateMachine.Table.{validate_transition}
use multi_agent_ai_system.StateMachine.Dictionary.{every-mem_str}
use multi_agent_ai_system.StateMachine.WorkflowExecution.{validate_workflow_execution_transition}
use multi_agent_ai_system.Workflows.Models.{
  ActionDef, Executor, Settings, Run, WorkflowConfiguration, drop, or_default, seconds,
  ended_statuses,
}
use multi_agent_ai_system.Workflows.Engine.{
  on_execution, move_to, record_history, met, check_conditions, go_on, stop_loop, started, begin,
  run_execution_pipeline,
}
use multi_agent_ai_system.Workflows.Engine.Endings.{Ends, IsBounded, running, loop-Ends}

abbrev pub runnable_statuses : List String
runnable_statuses = "PENDING" ∷ "RUNNING" ∷ "WAITING_APPROVAL" ∷ "WAITING_RETRY" ∷ []

abbrev is_accepted : Result (Unit {0}) → Bool
is_accepted (ok u) = true
is_accepted (err e) = false

accepted : (o : Result (Unit {0})) → is_accepted o ≡ true → o ≡ ok tt
accepted (ok tt) h = refl
accepted (err e) h = cc

may_run :
    (status : String)
    → mem_str status runnable_statuses ≡ true
    → validate_workflow_execution_transition status "RUNNING" ≡ ok tt
unfolding validate_workflow_execution_transition validate_transition
may_run status h = accepted _ (
    every-mem_str (λ x. is_accepted (validate_workflow_execution_transition x "RUNNING"))
      runnable_statuses status h refl)

not_ended :
    (status : String)
    → mem_str status runnable_statuses ≡ true
    → mem_str status ended_statuses ≡ false
not_ended status h =
    let e = every-mem_str (λ x. not (mem_str x ended_statuses)) runnable_statuses status h refl in
    ground arith

length-drop : (n : ℕ) (xs : List ActionDef) → n ≤ length xs → n + length (drop n xs) ≡ length xs
length-drop n [] h = ground arith
length-drop ℕ.zero (x ∷ xs) h = ground arith
length-drop (ℕ.suc n) (x ∷ xs) h = let k = length-drop n xs (ground arith) in ground arith

first-Ends :
    {W : Type 0} (execute : Executor W) (steps : ℕ) (before : List Approval)
    (m : Action (Run W) (Unit {0})) (f : Unit {0} → Action (Run W) (Unit {0})) (q q' : Run W)
    → m q ≡ (ok tt, q')
    → Ends execute steps before (f tt) q'
    → Ends execute steps before (m >>= f) q
first-Ends execute steps before m f q q' e (o, r, h, ends, b) =
    (o, r, bind_ok m f q q' tt e ∙ h, ends, b)

module _ {W : Type 0} (digest : Dict → String) (execute : Executor W)
    (evaluate_conditions : Json → Dict → Result Bool) (settings : Settings) (now : ℕ)
    (workflow : WorkflowConfiguration) (r : Run W) where
  abbrev pub deadline : ℕ
  deadline =
      started digest execute evaluate_conditions settings now r.execution
      + seconds (or_default workflow.max_execution_time settings.workflow_timeout_seconds)

  abbrev max_steps : ℕ
  max_steps = or_default workflow.max_steps settings.workflow_max_steps

  check-Ends :
      (q : Run W)
      → evaluate_conditions workflow.conditions q.execution.context ≡ ok true
      → q.execution.current_step ≤ length workflow.actions
      → IsBounded q
      → Ends execute
          (length workflow.actions)
          q.approvals
          (check_conditions digest execute evaluate_conditions settings now workflow)
          (running q)
  unfolding check_conditions met record_history ◌>>=◌ ◌>>◌
  check-Ends q hold within b = rw hold (
      loop-Ends digest execute evaluate_conditions settings now (length workflow.actions)
        q.approvals (drop q.execution.current_step workflow.actions)
        (record_history "EVALUATE_CONDITIONS"
          (some (entry "passed" (boolean true) (entry "conditions" workflow.conditions end))) none
          q).1
        (length-drop q.execution.current_step workflow.actions within) refl b)

  step-Ends :
      (q : Run W)
      → leb max_steps q.execution.current_step ≡ false
      → evaluate_conditions workflow.conditions q.execution.context ≡ ok true
      → q.execution.current_step ≤ length workflow.actions
      → IsBounded q
      → Ends execute
          (length workflow.actions)
          q.approvals
          (gets (λ x. x.execution.current_step) >>= λ step.
            if leb max_steps step
            then stop_loop digest execute evaluate_conditions settings now max_steps
            else check_conditions digest execute evaluate_conditions settings now workflow)
          (running q)
  unfolding ◌>>=◌
  step-Ends q below hold within b = rw below (check-Ends q hold within b)

  moved :
      (q : Run W)
      → mem_str q.execution.status runnable_statuses ≡ true
      → move_to "RUNNING" q ≡ (ok tt, running q)
  unfolding move_to ◌>>=◌ ◌>>◌
  moved q may =
      bind_ok (lift (validate_workflow_execution_transition q.execution.status "RUNNING"))
        (λ _. on_execution (λ x. record x { status = "RUNNING" })) q q tt
        (ap (λ o. (o, q)) (may_run q.execution.status may))

  go-Ends :
      (q : Run W)
      → mem_str q.execution.status runnable_statuses ≡ true
      → leb max_steps q.execution.current_step ≡ false
      → evaluate_conditions workflow.conditions q.execution.context ≡ ok true
      → q.execution.current_step ≤ length workflow.actions
      → IsBounded q
      → Ends execute
          (length workflow.actions)
          q.approvals
          (go_on digest execute evaluate_conditions settings now workflow)
          q
  unfolding go_on ◌>>◌
  go-Ends q may below hold within b =
      first-Ends execute _ q.approvals (move_to "RUNNING") _ q (running q) (moved q may)
        (step-Ends q below hold within b)

  -- An execution that may run, within its time and its steps, and whose conditions hold, is run to an
  -- end whatever its actions do: COMPLETED after the last step, WAITING_APPROVAL with exactly one more
  -- approval, which is PENDING and belongs to it, WAITING_RETRY, or FAILED when no retry is left; or the
  -- executor raises for its tenant, and then the call raises the same before the last step is done, and
  -- leaves it RUNNING with the same approvals. It never has more retries than allowed.
  pub run_execution_pipeline-Ends :
      mem_str r.execution.status runnable_statuses ≡ true
      → ltb deadline now ≡ false
      → leb (or_default workflow.max_steps settings.workflow_max_steps) r.execution.current_step
        ≡ false
      → evaluate_conditions workflow.conditions r.execution.context ≡ ok true
      → r.execution.current_step ≤ length workflow.actions
      → IsBounded r
      → Ends execute
          (length workflow.actions)
          r.approvals
          (run_execution_pipeline digest execute evaluate_conditions settings now workflow)
          r
  unfolding run_execution_pipeline begin ◌>>=◌ ◌>>◌
  run_execution_pipeline-Ends may timely below hold within b =
      rw (not_ended r.execution.status may, timely) (go-Ends _ may below hold within b)
