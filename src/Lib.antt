-- ===== src/Lib.antt =====
-- A multi-agent system for businesses: tenants pay for plans, agents answer customers, tasks, orders,
-- workflows and messages go through statuses. This library models the parts that decide on statuses,
-- on money, on what an action may do, on which agent works for whom, on who answers a message and on
-- how far a workflow runs, and shows what makes them correct.
--
-- Core/Exceptions is app/core/exceptions.py and the shape of every service method: a call works on a
-- state and returns a value or raises, and what it assigned before a raise stays until it is rolled
-- back. Core/Triples has the rules for the statements of such a call, a handler of exceptions among
-- them. Core/Phone is app/core/phone.py on ASCII text.
--
-- StateMachine holds the transition tables and their validators: Task (app/core/task_state.py), Order
-- (app/core/order_state.py), Handoff (app/core/handoff_state.py), Message
-- (app/core/messaging_state.py), WorkflowExecution (app/core/workflow_state.py) and Connection
-- (app/integrations/state_machine.py). Each has its enumeration, its table and its validator, and Task
-- and Handoff the functions that write a status. Table and Dictionary are the two shapes of the
-- validators; History has the chains of accepted transitions.
--
-- Billing is app/billing. Models are the rows (app/database/models/billing.py, and the approvals of
-- workflow.py there), Session is the database session: the rows it sees, the rows that are committed,
-- the published events and a supply of identifiers. Status is state_machine.py. Plans and Catalogue
-- are plans.py. Subscription is subscription.py: Lookup (reading, _transition_subscription_status),
-- Trial, Activation, Impact (evaluate_plan_change_impact), PlanChange and Ending (cancellation,
-- payment failures). Invoices is invoices.py; Payments, with Choice (the provider by the settings) and
-- Confirm (success and failure), is payments.py; Refunds is refunds.py; Entitlement is entitlement.py;
-- Usage is usage.py. Provider is the interface of provider.py, a parameter of Payments and Refunds.
--
-- Platform is what the services outside of billing share: Context has the actor of a request
-- (app/core/context.py), Store the rows of billing together with the tenants and the audit
-- (app/database/models/tenant.py, audit.py), in the session and as they are committed.
--
-- Authority is app/core/authority. Risk is risk.py; Schemas is schemas.py, where the digest that makes
-- the hash of an action is a parameter; Checks and Service are service.py, Checks with its tests and
-- Service with a function for each stretch of evaluate_action up to its next guard. Service/Policy
-- says when an action may run without the order of the checks; Service/Rules and Service/Complete
-- compare the two.
--
-- Approvals is app/core/approvals/service.py: approve, which decides on the approvals that Authority
-- reads. The actor of the request and the resumption of the workflow, which may change any row, are
-- parameters.
--
-- Tasks is app/core/tasks/service.py: TaskService over the rows of all tenants, with the transitions
-- of StateMachine/Task.
--
-- Agents is app/agents. Schemas has the requests, the results and their statuses (base/schemas.py),
-- Permissions the tools of each agent (base/permissions.py), Agent the wrapper that every agent runs
-- through (base/agent.py), Registry the registry and the delegation from agent to agent
-- (base/registry.py). Orchestrator is owner_ai/orchestrator.py, over Tasks, with Desk (the variables,
-- the rows and the requests) and Findings (what the results come to); assembling the context,
-- delegating and storing a recommendation are its parameters.
--
-- AiGateway is app/core/ai_gateway: a call goes through Limits/RateLimiter, then to the provider, a
-- parameter, and its usage is recorded there and by Billing/Usage. Whether the database takes the row
-- is a parameter too.
--
-- Router is app/core/router: the replies that need no model, with the classification of a message and
-- the answer of the assistant as parameters. Memory is app/memory/validators.py.
--
-- Tenants/Lifecycle is app/tenants/lifecycle.py: the table and the validator, and in Manager the
-- methods of ClientLifecycleManager. advance_to_onboarding and advance_to_ready share one loop,
-- advance, which differs in the sequence and the texts. The summary of the onboarding is a parameter:
-- an action that gives its readiness status. Tenants/Readiness is
-- app/tenants/provisioning/readiness.py, where the rounded share of a category is a parameter.
--
-- Workflows is app/core/workflows: Models has the rows and the values, Engine the pipeline of an
-- execution (run_execution_pipeline of engine.py). The executor of the actions and the evaluator of
-- the conditions are parameters of the pipeline; the executor returns a result or raises, may change
-- the context that it is given, and works in a world of its own, whose type is a parameter as well,
-- so that it touches no other column of the execution. The loop over the actions is a recursion on
-- the actions that are left. Executor is actions.py: an action passes the gate of Authority/Service
-- and then has its effect, where the actions that work through another component, or on the lists of
-- the context, are the parameter dispatch. Comparisons and Conditions are conditions.py: the
-- operators,
-- and the evaluator of conditions.
--
-- Limits has RateLimiter (app/core/ai_gateway/rate_limiter.py) and Retry (app/integrations/retry.py).
-- A call that is retried is given by the outcome of each attempt; the loop has one round of fuel more
-- than the retries allowed, and that is shown to be enough.
--
-- The services call each other as in the source: a payment that succeeds commits its invoice and
-- activates the subscription, an activation seeds the plans when its plan is missing, a usage asks the
-- entitlement for the limit. Any other loop is a recursion on its list, or on the attempts that are
-- left, so that no fuel is needed.
--
-- Amounts count hundredths, times count microseconds, an identifier is a number from the supply; the
-- clock is read once in a call, and its time is an argument. Texts for people are left out, and so are
-- row locks: a call runs alone. A row that is changed is written back under its identifier, and a
-- flush raises nothing; a dictionary column counts as written when its attribute is assigned, and the
-- context of an execution is the one in memory, which an action may change in place. Factors of a delay
-- are whole numbers. The ratios of a usage are compared as fractions. The amount of a refund is read
-- back as request_refund writes it, or as a whole number. What Python makes of the values in the
-- entries of an invoice is a parameter of Invoices.
--
-- Not modelled: the providers and their network, the specialist agents and the tools they call, the
-- assembly of the context, analytics, the storage of memories, the provisioning and onboarding of
-- tenants, events, the rejection, modification and cancellation of an approval, the resumption of a
-- workflow, the actions that are dispatched to the integrations, the HTTP routes and the front end:
-- most of it is input and output, or the choice of texts for a model; the others stand beside what is
-- modelled here. The provisioning assigns a state of a tenant without the validator of
-- Tenants/Lifecycle, so that the states that it assigns are in no chain of accepted transitions.
pub mod Prelude
pub mod Core
pub mod StateMachine
pub mod Billing
pub mod Platform
pub mod Authority
pub mod Approvals
pub mod Tasks
pub mod AiGateway
pub mod Router
pub mod Memory
pub mod Agents
pub mod Tenants
pub mod Limits
pub mod Workflows
