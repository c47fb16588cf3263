-- ===== src/Tasks.antt =====
-- app/core/tasks/service.py: `TaskService`, over the tasks of all tenants. Each operation that changes
-- a task commits, and raises before it changes anything, so one list of rows is the session and the
-- database at once. A time counts microseconds.
pub mod Laws
mod Tests
use multi_agent_ai_system.Prelude.{
  ℕ, suc, ◌==◌, leb, String, str_eq, Bool, true, false, not, ◌&&◌, ◌||◌, Option, none, some, List,
  [], ◌∷◌, ◌++◌, select, save, if◌then◌else◌,
}
use multi_agent_ai_system.Prelude.Json.{Dict, end, entry}
use multi_agent_ai_system.Core.Exceptions.{
  Action, Result, ok, err, app_error, gets, modify, or_raise, scalar_one_or_none, ◌>>=◌, ◌>>◌,
}
use multi_agent_ai_system.StateMachine.Task.{Task, apply_task_status_transition}

-- The row; `life` holds the columns that a transition reads or writes.
pub record TaskRow : Type 0 where
  pub id : ℕ
  pub tenant_id : ℕ
  pub title : String
  pub description : Option String
  pub task_type : String
  pub priority : String
  pub life : Task
  pub source : String
  pub assigned_to : Option String
  pub assigned_agent : Option String
  pub workflow_execution_id : Option ℕ
  pub due_at : Option ℕ
  pub created_at : ℕ
  pub result : Option Dict
  pub error : Option String

pub record TaskStore : Type 0 where
  pub tasks : List TaskRow
  pub next_id : ℕ

-- The arguments of `create_task`.
pub record TaskDraft : Type 0 where
  pub title : String
  pub description : Option String
  pub task_type : String
  pub priority : String
  pub source : String
  pub assigned_to : Option String
  pub assigned_agent : Option String
  pub workflow_execution_id : Option ℕ
  pub due_at : Option ℕ

-- the truth of an optional text
abbrev pub given : Option String → Bool
given none = false
given (some t) = not (str_eq t "")

abbrev pub first_status : TaskDraft → String
first_status draft =
    if given draft.assigned_to || given draft.assigned_agent then "ASSIGNED" else "CREATED"

abbrev pub new_task : ℕ → ℕ → ℕ → TaskDraft → TaskRow
new_task now id tenant_id draft = record {
  id = id;
  tenant_id = tenant_id;
  title = draft.title;
  description = draft.description;
  task_type = draft.task_type;
  priority = draft.priority;
  life = record { status = first_status draft; started_at = none; completed_at = none };
  source = draft.source;
  assigned_to = draft.assigned_to;
  assigned_agent = draft.assigned_agent;
  workflow_execution_id = draft.workflow_execution_id;
  due_at = draft.due_at;
  created_at = now;
  result = none;
  error = none;
}

unfoldable pub create_task : ℕ → ℕ → TaskDraft → Action TaskStore TaskRow
create_task now tenant_id draft s =
    let task = new_task now s.next_id tenant_id draft in
    (ok task, record { tasks = s.tasks ++ task ∷ []; next_id = suc s.next_id })

abbrev pub is_task : ℕ → ℕ → TaskRow → Bool
is_task tenant_id task_id t = t.id == task_id && t.tenant_id == tenant_id

unfoldable pub get_task : ℕ → ℕ → Action TaskStore TaskRow
get_task tenant_id task_id = do
  found ← λ s. scalar_one_or_none (select (is_task tenant_id task_id) s.tasks) s
  or_raise found (app_error 404)

-- A filter that is not given lets every task pass.
abbrev pub passes : Option String → String → Bool
passes filter value =
    if given filter then elim filter [ none ↦ true | some wanted ↦ str_eq value wanted ] else true

abbrev pub passes_optional : Option String → Option String → Bool
passes_optional filter none = not (given filter)
passes_optional filter (some value) = passes filter value

-- `ORDER BY created_at DESC`
abbrev pub insert_newest : TaskRow → List TaskRow → List TaskRow
insert_newest t [] = t ∷ []
insert_newest t (u ∷ rest) =
    let later = insert_newest t rest in
    if leb u.created_at t.created_at then t ∷ u ∷ rest else u ∷ later

abbrev pub newest_first : List TaskRow → List TaskRow
newest_first [] = []
newest_first (t ∷ rest) = insert_newest t (newest_first rest)

unfoldable pub list_tasks : ℕ → Option String → Option String → Action TaskStore (List TaskRow)
list_tasks tenant_id status assigned_to = gets λ s. newest_first (
    select
      (λ t.
        t.tenant_id == tenant_id
        && passes status t.life.status
        && passes_optional assigned_to t.assigned_to)
      s.tasks)

abbrev pub key_of : TaskRow → ℕ
key_of t = t.id

abbrev pub save_task : TaskRow → Action TaskStore (Unit {0})
save_task t = modify (λ s. record s { tasks = save key_of t s.tasks })

-- `apply_task_status_transition(task, …)` on the row, which raises before it changes anything
unfoldable pub transition : ℕ → String → TaskRow → Action TaskStore TaskRow
transition now status t s =
    let (r, life) = apply_task_status_transition now status t.life in
    elim r [ ok _ ↦ (ok (record t { life = life }), s) | err e ↦ (err e, s) ]

-- `if result`: of a dictionary that may be missing
abbrev pub has_entries : Option Dict → Bool
has_entries none = false
has_entries (some end) = false
has_entries (some (entry k v d)) = true

abbrev pub with_outcome : String → Option Dict → Option String → TaskRow → TaskRow
with_outcome new_status result error t = record t {
  result = if str_eq new_status "COMPLETED" && has_entries result then result else t.result;
  error = if given error then error else t.error;
}

unfoldable pub update_status :
    ℕ → ℕ → ℕ → String → Option Dict → Option String → Action TaskStore TaskRow
unfolding get_task transition
update_status now tenant_id task_id new_status result error = do
  task ← get_task tenant_id task_id
  moved ← transition now new_status task
  save_task (with_outcome new_status result error moved)
  gets (λ _. with_outcome new_status result error moved)

unfoldable pub starts_assigned : ℕ → TaskRow → Action TaskStore TaskRow
unfolding transition
starts_assigned now t =
    if str_eq t.life.status "CREATED" then transition now "ASSIGNED" t else λ s. (ok t, s)

unfoldable pub assign_task : ℕ → ℕ → ℕ → String → Action TaskStore TaskRow
unfolding get_task starts_assigned
assign_task now tenant_id task_id assigned_to = do
  task ← get_task tenant_id task_id
  moved ← starts_assigned now (record task { assigned_to = some assigned_to })
  save_task moved
  gets (λ _. moved)
