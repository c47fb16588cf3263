-- ===== src/Tasks/Laws.antt =====
-- What the operations of the task service keep, and what a new task is found as
-- (app/core/tasks/service.py).
use multi_agent_ai_system.Prelude.{
  ℕ, suc, ◌<◌, String, str_eq, Bool, true, false, Option, none, some, List, [], ◌∷◌, ◌++◌, select,
  All, All-append, All-save, All-select, ◌≡◌, ◌≢◌, sym, refl, ◌∙◌, ap, subst, arith, ◌||◌,
  if◌then◌else◌,
}
use multi_agent_ai_system.Prelude.Json.{Dict}
use multi_agent_ai_system.Core.Exceptions.{
  Exception, Result, ok, err, app_error, gets, scalar_one_or_none, bind_ok, bind_err, ◌>>=◌, ◌>>◌,
}
use multi_agent_ai_system.Core.Triples.{
  Holds, Triple, Keeps, Found, bind_rule, consequence, query_rule, or_raise_rule, either_rule,
}
use multi_agent_ai_system.StateMachine.Task.{
  Task, apply_task_status_transition, validate_task_status_transition,
}
use multi_agent_ai_system.StateMachine.Task.Laws.{IsValid, apply_task_status_transition-IsValid}
use multi_agent_ai_system.Tasks.{
  TaskRow, TaskStore, TaskDraft, new_task, create_task, is_task, get_task, key_of, save_task,
  transition, with_outcome, update_status, assign_task, starts_assigned, given,
}

abbrev pub Proper : ℕ → TaskRow → Type 0
Proper next t = (t.id < next) × IsValid t.life

-- No identifier is one that is still to be given, and the time stamps of each task fit its status.
abbrev pub IsSound : TaskStore → Type 0
IsSound s = All (Proper s.next_id) s.tasks

later : (n : ℕ) (ts : List TaskRow) → All (Proper n) ts → All (Proper (suc n)) ts
later n [] h = tt
later n (t ∷ ts) h = let below = h.0.0 in ((omega arith, h.0.1), later n ts h.1)

unstarted-IsValid :
    (b : Bool)
    → IsValid (record {
      status = if b then "ASSIGNED" else "CREATED";
      started_at = none;
      completed_at = none;
    })
unstarted-IsValid true = record {
  was_started = λ h. cc;
  was_ended = λ h. cc;
  not_started = λ h. refl;
  not_ended = λ h. refl;
}
unstarted-IsValid false = record {
  was_started = λ h. cc;
  was_ended = λ h. cc;
  not_started = λ h. refl;
  not_ended = λ h. refl;
}

new_task-IsValid :
    (now id tenant_id : ℕ) (draft : TaskDraft) → IsValid (new_task now id tenant_id draft).life
new_task-IsValid now id tenant_id draft =
    unstarted-IsValid (given draft.assigned_to || given draft.assigned_agent)

pub create_task-IsSound :
    (now tenant_id : ℕ) (draft : TaskDraft) → Keeps IsSound (create_task now tenant_id draft)
unfolding create_task
create_task-IsSound now tenant_id draft s h =
    All-append (Proper (suc s.next_id)) s.tasks (new_task now s.next_id tenant_id draft ∷ [])
      (later s.next_id s.tasks h)
      ((omega arith, new_task-IsValid now s.next_id tenant_id draft), tt)

module _ (tenant_id task_id : ℕ) where
  abbrev pub rows_of : TaskStore → List TaskRow
  rows_of s = select (is_task tenant_id task_id) s.tasks

  pub get_task_rule :
      (P : TaskStore → Type 0)
      → Triple P (get_task tenant_id task_id) (λ t s. P s × (rows_of s ≡ t ∷ [])) P
  unfolding get_task
  get_task_rule P =
      bind_rule P (λ o s. P s × Found (rows_of s) o) (λ t s. P s × (rows_of s ≡ t ∷ [])) P _ _
        (query_rule P rows_of) (λ o. or_raise_rule P rows_of o (app_error 404))

  found-Proper : (s : TaskStore) (t : TaskRow) → IsSound s → rows_of s ≡ t ∷ [] → Proper s.next_id t
  found-Proper s t h e =
      (subst (All (Proper s.next_id)) e
        (All-select (Proper s.next_id) (is_task tenant_id task_id) s.tasks h)).0

moved :
    (r : Result (Unit {0})) (life : Task) (t : TaskRow) (s : TaskStore)
    → IsSound s × Proper s.next_id t
    → IsValid life
    → Holds
        (λ u s. IsSound s × Proper s.next_id u)
        IsSound
        (elim r [ ok _ ↦ (ok (record t { life = life }), s) | err e ↦ (err e, s) ])
moved (ok _) life t s h v = (h.0, (h.1.0, v))
moved (err e) life t s h v = h.0

transition-Proper :
    (now : ℕ) (status : String) (t : TaskRow)
    → Triple
        (λ s. IsSound s × Proper s.next_id t)
        (transition now status t)
        (λ u s. IsSound s × Proper s.next_id u)
        IsSound
unfolding transition
transition-Proper now status t s h =
    moved (apply_task_status_transition now status t.life).0
      (apply_task_status_transition now status t.life).1 t s h
      (apply_task_status_transition-IsValid now status t.life h.1.1)

save_task-IsSound :
    (t : TaskRow)
    → Triple (λ s. IsSound s × Proper s.next_id t) (save_task t) (λ _. IsSound) IsSound
save_task-IsSound t s h = All-save (Proper s.next_id) key_of t s.tasks h.0 h.1

row_rule :
    (tenant_id task_id : ℕ)
    → Triple IsSound (get_task tenant_id task_id) (λ t s. IsSound s × Proper s.next_id t) IsSound
row_rule tenant_id task_id =
    consequence IsSound IsSound (λ t s. IsSound s × (rows_of tenant_id task_id s ≡ t ∷ []))
      (λ t s. IsSound s × Proper s.next_id t) IsSound IsSound (get_task tenant_id task_id)
      (λ s h. h) (λ t s h. (h.0, found-Proper tenant_id task_id s t h.0 h.1)) (λ s h. h)
      (get_task_rule tenant_id task_id IsSound)

save_rule :
    (u : TaskRow) (v : TaskRow)
    → ((n : ℕ) → Proper n u → Proper n v)
    → Triple
        (λ s. IsSound s × Proper s.next_id u)
        (do save_task v; gets (λ _. v))
        (λ _. IsSound)
        IsSound
unfolding ◌>>◌
save_rule u v h =
    bind_rule (λ s. IsSound s × Proper s.next_id u) (λ _. IsSound) (λ _. IsSound) IsSound
      (save_task v) _ (λ s k. save_task-IsSound v s (k.0, h s.next_id k.1)) (λ _ s k. k)

starts_assigned-Proper :
    (now : ℕ) (t : TaskRow)
    → Triple
        (λ s. IsSound s × Proper s.next_id t)
        (starts_assigned now t)
        (λ u s. IsSound s × Proper s.next_id u)
        IsSound
unfolding starts_assigned
starts_assigned-Proper now t =
    either_rule _ _ IsSound (str_eq t.life.status "CREATED") (transition now "ASSIGNED" t) _
      (transition-Proper now "ASSIGNED" t) (λ s h. h)

-- Updating the status of a task, whether it raises or not, keeps that no identifier is one still to be
-- given and that the time stamps of each task fit its status: one on which work has begun has its start
-- time and a CREATED or ASSIGNED one has none, and exactly the COMPLETED, FAILED and CANCELLED ones have
-- a completion time.
pub update_status-IsSound :
    (now tenant_id task_id : ℕ) (new_status : String) (result : Option Dict) (error : Option String)
    → Keeps IsSound (update_status now tenant_id task_id new_status result error)
unfolding update_status
update_status-IsSound now tenant_id task_id new_status result error =
    bind_rule IsSound (λ t s. IsSound s × Proper s.next_id t) (λ _. IsSound) IsSound _ _
      (row_rule tenant_id task_id)
      (λ t.
        bind_rule (λ s. IsSound s × Proper s.next_id t) (λ u s. IsSound s × Proper s.next_id u)
          (λ _. IsSound) IsSound _ _ (transition-Proper now new_status t)
          (λ u. save_rule u (with_outcome new_status result error u) (λ n h. h)))

pub assign_task-IsSound :
    (now tenant_id task_id : ℕ) (assigned_to : String)
    → Keeps IsSound (assign_task now tenant_id task_id assigned_to)
unfolding assign_task
assign_task-IsSound now tenant_id task_id assigned_to =
    bind_rule IsSound (λ t s. IsSound s × Proper s.next_id t) (λ _. IsSound) IsSound _ _
      (row_rule tenant_id task_id)
      (λ t.
        bind_rule (λ s. IsSound s × Proper s.next_id t) (λ u s. IsSound s × Proper s.next_id u)
          (λ _. IsSound) IsSound _ _
          (starts_assigned-Proper now (record t { assigned_to = some assigned_to }))
          (λ u. save_rule u u (λ n h. h)))

only_new :
    (tenant_id n : ℕ) (t : TaskRow) (ts : List TaskRow)
    → All (Proper n) ts
    → t.id ≡ n
    → t.tenant_id ≡ tenant_id
    → select (is_task tenant_id n) (ts ++ t ∷ []) ≡ t ∷ []
only_new tenant_id n t [] h e k = ground arith
only_new tenant_id n t (u ∷ ts) h e k =
    let below = h.0.0 in ground (arith, only_new tenant_id n t ts h.1 e k)

pub new_task_found :
    (now tenant_id : ℕ) (draft : TaskDraft) (s : TaskStore)
    → IsSound s
    → rows_of tenant_id s.next_id (create_task now tenant_id draft s).1
      ≡ new_task now s.next_id tenant_id draft ∷ []
unfolding create_task
new_task_found now tenant_id draft s h =
    only_new tenant_id s.next_id (new_task now s.next_id tenant_id draft) s.tasks h refl refl

pub get_task_found :
    (tenant_id task_id : ℕ) (t : TaskRow) (s : TaskStore)
    → rows_of tenant_id task_id s ≡ t ∷ []
    → get_task tenant_id task_id s ≡ (ok t, s)
unfolding get_task
get_task_found tenant_id task_id t s e =
    bind_ok _ _ s s (some t)
      (ap (λ rows. scalar_one_or_none {S = TaskStore} {A = TaskRow} rows s) e)

none_for_others :
    (tenant_id n : ℕ) (t : TaskRow) (ts : List TaskRow)
    → All (Proper n) ts
    → t.tenant_id ≢ tenant_id
    → select (is_task tenant_id n) (ts ++ t ∷ []) ≡ []
none_for_others tenant_id n t [] h k = ground arith
none_for_others tenant_id n t (u ∷ ts) h k =
    let below = h.0.0 in ground (arith, none_for_others tenant_id n t ts h.1 k)

get_task-missing :
    (tenant_id task_id : ℕ) (s : TaskStore)
    → rows_of tenant_id task_id s ≡ []
    → get_task tenant_id task_id s ≡ (err (app_error 404), s)
unfolding get_task
get_task-missing tenant_id task_id s e =
    bind_ok _ _ s s none (ap (λ rows. scalar_one_or_none {S = TaskStore} {A = TaskRow} rows s) e)

-- In a sound store a new task is found under its tenant and its identifier, as it was made, and any other
-- tenant that asks for the identifier is told that there is none (404).
pub get_task-create_task :
    (now tenant_id other : ℕ) (draft : TaskDraft) (s : TaskStore)
    → IsSound s
    → other ≢ tenant_id
    → ((create_task now tenant_id draft >>= λ t. get_task tenant_id t.id) s
        ≡ create_task now tenant_id draft s)
      × ((create_task now tenant_id draft >>= λ t. get_task other t.id) s
          ≡ (err (app_error 404), (create_task now tenant_id draft s).1))
unfolding create_task ◌>>=◌
get_task-create_task now tenant_id other draft s h k = (
  get_task_found tenant_id s.next_id (new_task now s.next_id tenant_id draft)
      (create_task now tenant_id draft s).1 (new_task_found now tenant_id draft s h),
  get_task-missing other s.next_id (create_task now tenant_id draft s).1 (
      none_for_others other s.next_id (new_task now s.next_id tenant_id draft) s.tasks h
        (λ e. k (sym e))),
)

stays_refused :
    (now : ℕ) (status : String) (life : Task) (e : Exception)
    → validate_task_status_transition life.status status ≡ err e
    → apply_task_status_transition now status life ≡ (err e, life)
unfolding apply_task_status_transition
stays_refused now status life e h = rw (apply_task_status_transition, h) refl

transition-refused :
    (now : ℕ) (status : String) (t : TaskRow) (s : TaskStore) (e : Exception)
    → validate_task_status_transition t.life.status status ≡ err e
    → transition now status t s ≡ (err e, s)
unfolding transition
transition-refused now status t s e h = rw (transition, stays_refused now status t.life e h) refl

-- A status that the table of transitions refuses for the task is refused with its exception, and
-- nothing is written.
pub update_status-refused :
    (now tenant_id task_id : ℕ) (new_status : String) (result : Option Dict) (error : Option String)
    (t : TaskRow) (s : TaskStore) (e : Exception)
    → select (is_task tenant_id task_id) s.tasks ≡ t ∷ []
    → validate_task_status_transition t.life.status new_status ≡ err e
    → update_status now tenant_id task_id new_status result error s ≡ (err e, s)
unfolding update_status
update_status-refused now tenant_id task_id new_status result error t s e found refused =
    bind_ok _ _ s s t (get_task_found tenant_id task_id t s found)
    ∙ bind_err _ _ s s e (transition-refused now new_status t s e refused)
