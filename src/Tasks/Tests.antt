-- ===== src/Tasks/Tests.antt =====
-- Tasks at which the theorems are tried.
use multi_agent_ai_system.Prelude.{none, some, [], ◌∷◌, ◌≡◌, refl, arith}
use multi_agent_ai_system.Core.Exceptions.{ok, err, app_error, ◌>>=◌, ◌>>◌}
use multi_agent_ai_system.StateMachine.Task.{apply_task_status_transition}
use multi_agent_ai_system.Tasks.{
  TaskRow, TaskStore, TaskDraft, new_task, create_task, get_task, update_status,
}
use multi_agent_ai_system.Tasks.Laws.{IsSound, update_status-IsSound, get_task-create_task}
use multi_agent_ai_system.Core.Triples.{Holds}

abbrev draft : TaskDraft
draft = record {
  title = "Analyze";
  description = none;
  task_type = "analysis_ai_sales";
  priority = "NORMAL";
  source = "owner_ai";
  assigned_to = none;
  assigned_agent = some "ai_sales";
  workflow_execution_id = none;
  due_at = none;
}

abbrev one_task : TaskStore
one_task = record { tasks = new_task 5 0 7 draft ∷ []; next_id = 1 }

abbrev no_task : TaskStore
no_task = record { tasks = []; next_id = 0 }

update_status-IsSound_example :
    Holds (λ _. IsSound) IsSound (update_status 9 7 0 "IN_PROGRESS" none none one_task)
update_status-IsSound_example = update_status-IsSound 9 7 0 "IN_PROGRESS" none none one_task (
  (
    omega arith,
    record {
      was_started = λ h. cc;
      was_ended = λ h. cc;
      not_started = λ h. refl;
      not_ended = λ h. refl;
    },
  ),
  tt,
)

get_task-create_task_example :
    ((create_task 5 7 draft >>= λ t. get_task 7 t.id) one_task ≡ create_task 5 7 draft one_task)
    × ((create_task 5 7 draft >>= λ t. get_task 8 t.id) one_task
        ≡ (err (app_error 404), (create_task 5 7 draft one_task).1))
get_task-create_task_example =
    get_task-create_task 5 7 8 draft one_task
      (
        (
          omega arith,
          record {
            was_started = λ h. cc;
            was_ended = λ h. cc;
            not_started = λ h. refl;
            not_ended = λ h. refl;
          },
        ),
        tt,
      )
      (λ e. absurd (omega arith))

-- Work that begins is stamped.
begins : update_status 9 7 0 "IN_PROGRESS" none none one_task ≡ (
    let t : TaskRow = new_task 5 0 7 draft in
    let u : TaskRow = record t {
      life = record { status = "IN_PROGRESS"; started_at = some 9; completed_at = none };
    } in
    (ok u, record { tasks = u ∷ []; next_id = 1 }))
unfolding update_status apply_task_status_transition ◌>>=◌ ◌>>◌
begins = refl
