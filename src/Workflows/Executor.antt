-- ===== src/Workflows/Executor.antt =====
-- app/core/workflows/actions.py: `ActionExecutor.execute`. The gate and the actions that only answer are
-- modelled; the actions that work through another component (the integrations, the agents, the AI, the
-- rows of customers, orders and products, the refunds, the events, the tags and the delay) are the
-- parameter `dispatch`, which may raise. What they change is part of the world, the lists of the context
-- that the tags are kept in among it.
pub mod Gate
mod Tests
use Prim.Native.String.{◌++◌ as concat}
use text.Mathlib.Text.{find?}
use multi_agent_ai_system.Prelude.{
  ℕ, String, str_eq, mem_str, Bool, true, false, ◌||◌, Option, none, some, List, [], ◌∷◌,
  if◌then◌else◌,
}
use multi_agent_ai_system.Prelude.Text.{lower}
use multi_agent_ai_system.Prelude.Json.{Json, null, str, obj, Dict, end, entry, get, truthy}
use multi_agent_ai_system.Core.Exceptions.{Result, ok, err, value_error, Action, pure, lift, ◌>>=◌}
use multi_agent_ai_system.Platform.Context.{AuthenticatedActor}
use multi_agent_ai_system.Platform.Store.{Store}
use multi_agent_ai_system.Authority.Risk.{level}
use multi_agent_ai_system.Authority.Schemas.{
  ActionRequest, AuthorizationDecision, ExecutionDecision, allow, waiting_approval, deny,
}
use multi_agent_ai_system.Authority.Service.{evaluate_action}
use multi_agent_ai_system.Workflows.Models.{ActionResult, ApprovalData}

-- Functions of Python and of its libraries: `str` of a value and of a dictionary, and what
-- `uuid.UUID(str(…))` reads; and the text of a decision, which is for people.
pub record Python : Type 0 where
  pub str_of : Json → String
  pub repr : Dict → String
  pub uuid_of : Json → Option ℕ
  pub reason_of : AuthorizationDecision → String

-- The rows that the gate works on, and the world in which the actions have their effects.
pub record Scene (W : Type 0) : Type 0 where
  pub store : Store
  pub world : W

abbrev forbidden_keywords : List String
forbidden_keywords =
    "eval" ∷ "exec" ∷ "system" ∷ "subprocess" ∷ "os." ∷ "shutil" ∷ "importlib" ∷ "raw_sql" ∷ []

abbrev pub any_in : List String → String → Bool
any_in [] text = false
any_in (kw ∷ kws) text = elim (find? text kw) [ some _ ↦ true | none ↦ any_in kws text ]

unfoldable pub is_forbidden : Python → Dict → Bool
is_forbidden python params = any_in forbidden_keywords (lower (python.repr params))

abbrev pub or_null : Option Json → Json
or_null none = null
or_null (some v) = v

-- `a or b`
abbrev pub or_value : Json → Json → Json
or_value a b = if truthy a then a else b

abbrev pub no_approval : ApprovalData
no_approval = record {
  action_hash = "";
  action_type = "";
  target = "";
  reason = "";
  risk_level = "";
  whole = end;
}

abbrev pub success : Dict → ActionResult
success output = record {
  success = true;
  output = output;
  error = none;
  is_delayed = false;
  delay_seconds = 0;
  requires_approval = false;
  approval_data = no_approval;
}

abbrev pub failure : String → ActionResult
failure error = record (success end) { success = false; error = some error }

-- A text that the request may leave out; the schema refuses anything else.
abbrev pub optional_str : Json → Result (Option String)
optional_str null = ok none
optional_str (str s) = ok (some s)
optional_str _ = err value_error

abbrev pub parse_approval_id : Python → Json → Option ℕ
parse_approval_id python v = if truthy v then python.uuid_of v else none

module _ (python : Python) (active_actor : Option AuthenticatedActor) (action_type : String)
    (params context : Dict) (tenant_id : ℕ) where
  abbrev pub target_value : Json
  target_value = or_value (or_null (get "target" params)) (
      if str_eq action_type "call_agent"
      then or_value (or_null (get "agent_name" params))
          (or_value (or_null (get "agent" params)) (str action_type))
      else str action_type)

  abbrev pub approval_value : Json
  approval_value =
      or_value (or_null (get "approval_id" params))
        (or_value (or_null (get "_approval_id" params)) (or_null (get "approval_id" context)))

  abbrev pub request_with : Option String → Option String → ActionRequest
  request_with agent_id correlation_id = record {
    action_type = action_type;
    target = python.str_of target_value;
    tenant_id = tenant_id;
    actor = active_actor;
    agent_id = agent_id;
    params = params;
    approval_id = parse_approval_id python approval_value;
    correlation_id = correlation_id;
  }

  abbrev pub request_from : Result (Option String) → Result (Option String) → Result ActionRequest
  request_from (ok agent_id) (ok correlation_id) = ok (request_with agent_id correlation_id)
  request_from (ok agent_id) (err e) = err e
  request_from (err e) correlation_id = err e

  -- The request of the gate
  unfoldable pub action_request : Result ActionRequest
  action_request =
      request_from
        (optional_str
          (or_value (or_null (get "agent_id" params)) (or_null (get "agent_id" context))))
        (optional_str (
          or_value (or_null (get "correlation_id" params))
            (or_null (get "correlation_id" context))))

  -- `params.get("reason", …)`
  abbrev pub reason_value : AuthorizationDecision → Json
  reason_value d = elim (get "reason" params) [
    | some v ↦ v
    | none ↦
        str (
          concat "Execution of " (concat (level d.risk_level) (concat "-risk action " action_type)))
  ]

  abbrev pub asks_approval : AuthorizationDecision → ActionResult
  asks_approval d = record (success end) {
    requires_approval = true;
    approval_data = record {
      action_hash = d.action_hash;
      action_type = action_type;
      target = python.str_of target_value;
      reason = python.str_of (reason_value d);
      risk_level = level d.risk_level;
      whole = entry "action_type" (str action_type) (
          entry "target" (str (python.str_of target_value)) (
            entry "reason" (reason_value d) (
              entry "risk_level" (str (level d.risk_level))
                (entry "params" (obj params) (entry "action_hash" (str d.action_hash) end)))));
    };
  }

abbrev pub get_or : String → Json → Dict → Json
get_or k v d = elim (get k d) [ some w ↦ w | none ↦ v ]

-- The actions that work through another component
abbrev pub dispatched : List String
dispatched =
    "add_tag" ∷ "remove_tag" ∷ "delay" ∷ "emit_event" ∷ "call_ai" ∷ "call_agent"
    ∷ "whatsapp_send_message" ∷ "midtrans_create_payment" ∷ "midtrans_check_status"
    ∷ "midtrans_cancel_payment" ∷ "midtrans_request_refund" ∷ "execute_integration"
    ∷ "google_sheets_append" ∷ "google_sheets_update" ∷ "google_calendar_create_event"
    ∷ "update_customer" ∷ "update_order" ∷ "change_product_price" ∷ "issue_refund" ∷ []

module _ {W : Type 0} (digest : Dict → String) (python : Python)
    (dispatch : ActionRequest → Dict → Action (Scene W) ActionResult) (now : ℕ)
    (active_actor : Option AuthenticatedActor) where
  abbrev pub on_store : {A : Type 0} → Action Store A → Action (Scene W) A
  on_store m s = let (r, store) = m s.store in (r, record s { store = store })

  unfoldable pub run_action : String → Dict → Dict → ActionRequest → Action (Scene W) ActionResult
  run_action action_type params context request =
      if str_eq action_type "send_message"
      then pure
          (success (entry "sent_message" (get_or "message" (str "Default message") params) end))
      else if str_eq action_type "create_task"
      then pure (
          success (
            entry "task_created" (get_or "title" (str "Workflow Task") params)
              (entry "description" (get_or "description" (str "") params) end)))
      else if str_eq action_type "log_result"
      then pure (success (entry "logged" (or_null (get "message" params)) end))
      else if mem_str action_type dispatched
      then dispatch request context
      else pure (failure (concat "Unknown or unsupported action type: " action_type))

  -- What follows the decision of the gate.
  abbrev pub on_decision :
      String
      → Dict
      → Dict
      → ℕ
      → ActionRequest
      → AuthorizationDecision
      → ExecutionDecision
      → Action (Scene W) ActionResult
  on_decision action_type params context tenant_id request d deny =
      pure (failure (python.reason_of d))
  on_decision action_type params context tenant_id request d waiting_approval =
      pure (asks_approval python active_actor action_type params context tenant_id d)
  on_decision action_type params context tenant_id request d allow =
      run_action action_type params context request

  -- An action whose parameters name nothing that is forbidden.
  unfoldable pub execute_clean : String → Dict → Dict → ℕ → Action (Scene W) ActionResult
  unfolding action_request
  execute_clean action_type params context tenant_id =
      lift (action_request python active_actor action_type params context tenant_id) >>= λ request.
      on_store (evaluate_action digest true now request) >>= λ d.
      on_decision action_type params context tenant_id request d d.decision

  unfoldable pub execute : String → Dict → Dict → ℕ → Action (Scene W) ActionResult
  unfolding is_forbidden execute_clean
  execute action_type params context tenant_id =
      if is_forbidden python params
      then pure (failure "Action parameters contain forbidden operations/keywords.")
      else execute_clean action_type params context tenant_id
