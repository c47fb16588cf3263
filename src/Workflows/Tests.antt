-- ===== src/Workflows/Tests.antt =====
-- A workflow of two actions, at which the theorems are tried.
use multi_agent_ai_system.Prelude.{
  ℕ, String, Bool, true, false, none, some, [], ◌∷◌, ◌≡◌, refl, arith,
}
use multi_agent_ai_system.Prelude.Json.{Json, str, num, arr, obj, Dict, end, entry, put}
use multi_agent_ai_system.Prelude.Int.{ℤ}
use multi_agent_ai_system.Prelude.Text.{decimal}
use multi_agent_ai_system.Core.Exceptions.{Result, ok, err, type_error}
use multi_agent_ai_system.StateMachine.WorkflowExecution.{invalid_workflow_transition}
use multi_agent_ai_system.Workflows.Models.{
  ActionDef, ActionResult, Executor, Settings, Run, WorkflowConfiguration,
}
use multi_agent_ai_system.Workflows.Comparisons.{Spelling, equal, order, operators}
use multi_agent_ai_system.Workflows.Conditions.{
  get_nested_value, operator_of, evaluate_condition, evaluate_conditions,
}
use multi_agent_ai_system.Workflows.Conditions.Grammar.{
  Conditions, test, some_one, none_left, then_one, equals, exists, not_exists, write_all, holds,
  evaluate_conditions-write,
}
use multi_agent_ai_system.Workflows.Engine.{run_execution_pipeline}
use multi_agent_ai_system.Workflows.Engine.Endings.{Ends}
use multi_agent_ai_system.Workflows.Engine.Pipeline.{run_execution_pipeline-Ends}
use multi_agent_ai_system.Workflows.Engine.Timeout.{run_execution_pipeline-late}

abbrev digest : Dict → String
digest d = "h"

-- The world counts the actions; the second asks for an approval.
abbrev answer : Bool → ActionResult
answer asks = record {
  success = true;
  output = entry "sent" (str "yes") end;
  error = none;
  is_delayed = false;
  delay_seconds = 0;
  requires_approval = asks;
  approval_data = record {
    action_hash = "";
    action_type = "issue_refund";
    target = "payment_2";
    reason = "high risk";
    risk_level = "CRITICAL";
    whole = end;
  };
}

abbrev execute : Executor ℕ
execute action_type params context tenant_id ℕ.zero = (ok (answer false), context, 1)
execute action_type params context tenant_id (ℕ.suc n) =
    (ok (answer true), context, ℕ.suc (ℕ.suc n))

abbrev always : Json → Dict → Result Bool
always conditions context = ok true

abbrev settings : Settings
settings = record { workflow_max_steps = 50; workflow_timeout_seconds = 300 }

abbrev action_of : String → ActionDef
action_of name = record { action = some name; type = none; params = end; whole = end }

abbrev workflow : WorkflowConfiguration
workflow = record {
  actions = action_of "send_message" ∷ action_of "issue_refund" ∷ [];
  conditions = Json.null;
  max_steps = 0;
  max_execution_time = 0;
}

abbrev run_in : String → ℕ → Run ℕ
run_in status start = record {
  execution = record {
    id = 5;
    tenant_id = 7;
    event_id = "e";
    status = status;
    current_step = 0;
    started_at = some start;
    completed_at = none;
    failed_at = none;
    retry_count = 0;
    max_retries = 3;
    next_retry_at = none;
    context = end;
    result = none;
    error = none;
  };
  approvals = [];
  histories = [];
  next_id = 1;
  world = 0;
}

run_execution_pipeline-Ends_example :
    Ends execute 2 []
      (run_execution_pipeline digest execute always settings 1000 workflow)
      (run_in "PENDING" 900)
run_execution_pipeline-Ends_example =
    run_execution_pipeline-Ends digest execute always settings 1000 workflow (run_in "PENDING" 900)
      refl refl refl refl (omega arith) (omega arith)

-- Ten minutes late, where five are allowed.
run_execution_pipeline-late_example :
    run_execution_pipeline digest execute always settings 600000000 workflow
      (run_in "WAITING_RETRY" 0)
    ≡ (err invalid_workflow_transition, run_in "WAITING_RETRY" 0)
run_execution_pipeline-late_example =
    run_execution_pipeline-late digest execute always settings 600000000 workflow
      (run_in "WAITING_RETRY" 0) refl refl

abbrev spelling : Spelling
spelling = record { of_id = decimal; of_amount = λ n. "1.00"; of_time = λ n. "2026" }

abbrev order_context : Dict
order_context =
    entry "order" (obj (entry "total" (num (ℤ.pos 150)) (entry "status" (str "PAID") end))) end

abbrev paid_or_unnamed : Conditions
paid_or_unnamed =
    then_one
      (some_one (
        then_one (test "order.status" (equals (str "PAID")))
          (then_one (test "customer.name" not_exists) none_left)))
      (then_one (test "order.total" exists) none_left)

evaluate_conditions-write_example :
    evaluate_conditions spelling order_context (arr (write_all paid_or_unnamed)) ≡ ok true
unfolding holds get_nested_value equal
evaluate_conditions-write_example = evaluate_conditions-write spelling order_context paid_or_unnamed

abbrev total_above : ℕ → Dict
total_above n =
    entry "field" (str "order.total")
      (entry "operator" (str "greater_than") (entry "value" (num (ℤ.pos n)) end))

number_with_text :
    evaluate_condition spelling order_context (obj (put "value" (str "100") (total_above 100)))
    ≡ err type_error
unfolding evaluate_condition operator_of operators get_nested_value order
number_with_text = refl
