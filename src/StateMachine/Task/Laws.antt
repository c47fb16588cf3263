-- ===== src/StateMachine/Task/Laws.antt =====
-- What every accepted transition of a task keeps (app/core/task_state.py).
use multi_agent_ai_system.Prelude.{
  ℕ, String, str_eq, eq_iff, mem_str, not, Bool, true, false, none, some, List, [], ◌∷◌, ◌≡◌, refl,
  ◌≢◌, ◌⊎◌, ◌||◌, inl, inr, Option-cases, arith,
}
use multi_agent_ai_system.Core.Exceptions.{Exception, ok, err, Result-cases}
use multi_agent_ai_system.StateMachine.Table.{accepted_each, parse, parse_sound}
use multi_agent_ai_system.StateMachine.History.{Accepted, final, passes_gate}
use multi_agent_ai_system.StateMachine.Task.{
  TaskStatus, created, assigned, in_progress, waiting_data, waiting_approval, completed, failed,
  blocked, cancelled, value, members, allowed_task_transitions, invalid_task_transition,
  validate_task_status_transition, Task, stamp, apply_task_status_transition,
}

-- The statuses of a task on which work has begun.
abbrev pub begun : String → Bool
begun s =
    mem_str s (
      "IN_PROGRESS" ∷ "WAITING_DATA" ∷ "WAITING_APPROVAL" ∷ "COMPLETED" ∷ "FAILED" ∷ "BLOCKED" ∷ [])

-- The statuses for which `completed_at` is set.
abbrev pub ended : String → Bool
ended s = mem_str s ("COMPLETED" ∷ "FAILED" ∷ "CANCELLED" ∷ [])

abbrev pub terminal : String → Bool
terminal s = mem_str s ("COMPLETED" ∷ "FAILED" ∷ "BLOCKED" ∷ "CANCELLED" ∷ [])

-- The statuses of a task on which work cannot have begun.
abbrev pub fresh : String → Bool
fresh s = mem_str s ("CREATED" ∷ "ASSIGNED" ∷ [])

-- The time stamps fit the status.
pub record IsValid (t : Task) : Type 0 where
  pub was_started : begun t.status ≡ true → t.started_at ≢ none
  pub was_ended : ended t.status ≡ true → t.completed_at ≢ none
  pub not_started : fresh t.status ≡ true → t.started_at ≡ none
  pub not_ended : ended t.status ≡ false → t.completed_at ≡ none

begins_work :
    (s t : String)
    → validate_task_status_transition s t ≡ ok tt
    → begun t ≡ true
    → (begun s ≡ true) ⊎ (t ≡ "IN_PROGRESS")
unfolding validate_task_status_transition
begins_work s t h k =
    let steps =
      accepted_each value members allowed_task_transitions
        (λ s t. begun s || (not (begun t) || str_eq t "IN_PROGRESS")) invalid_task_transition s t
        refl h in
    ground (arith, steps, eq_iff t "IN_PROGRESS")

stays_fresh :
    (s t : String) → validate_task_status_transition s t ≡ ok tt → fresh t ≡ true → fresh s ≡ true
unfolding validate_task_status_transition
stays_fresh s t h k =
    let steps =
      accepted_each value members allowed_task_transitions (λ s t. fresh s || not (fresh t))
        invalid_task_transition s t refl h in
    ground (arith, steps)

stays_open :
    (s t : String) → validate_task_status_transition s t ≡ ok tt → ended t ≡ false → ended s ≡ false
unfolding validate_task_status_transition
stays_open s t h k =
    let steps =
      accepted_each value members allowed_task_transitions (λ s t. not (ended s) || ended t)
        invalid_task_transition s t refl h in
    ground (arith, steps)

-- A terminal status is left by no accepted transition.
pub terminal_stays :
    (s t : String) → terminal s ≡ true → validate_task_status_transition s t ≡ ok tt → t ≡ s
unfolding validate_task_status_transition
terminal_stays s t k h =
    let steps =
      accepted_each value members allowed_task_transitions (λ s t. not (terminal s))
        invalid_task_transition s t refl h in
    ground (arith, steps)

stamp-IsValid :
    (b : TaskStatus) (now : ℕ) (t : Task)
    → (begun (value b) ≡ true → (t.started_at ≢ none) ⊎ (str_eq (value b) "IN_PROGRESS" ≡ true))
    → (fresh (value b) ≡ true → t.started_at ≡ none)
    → (ended (value b) ≡ false → t.completed_at ≡ none)
    → IsValid (stamp b now (record t { status = value b }))
unfolding stamp
stamp-IsValid created now t h f o = ground (arith, f refl, o refl)
stamp-IsValid assigned now t h f o = ground (arith, f refl, o refl)
stamp-IsValid in_progress now t h f o = ground (arith, o refl)
stamp-IsValid waiting_data now t h f o = ground (arith, h refl, o refl)
stamp-IsValid waiting_approval now t h f o = ground (arith, h refl, o refl)
stamp-IsValid completed now t h f o = ground (arith, h refl)
stamp-IsValid failed now t h f o = ground (arith, h refl)
stamp-IsValid blocked now t h f o = ground (arith, h refl, o refl)
stamp-IsValid cancelled now t h f o = ground arith

stamp-started_at :
    (b : TaskStatus) (now : ℕ) (t : Task) (began : ℕ)
    → t.started_at ≡ some began
    → (stamp b now (record t { status = value b })).started_at ≡ some began
unfolding stamp
stamp-started_at b now t began h = ground arith

-- How a call of `apply_task_status_transition` ends: refused, at a text that is no status, or with the stamps set.
data Ends (now : ℕ) (target : String) (t : Task) : Type 0 where
  refused :
      (e : Exception) → apply_task_status_transition now target t ≡ (err e, t) → Ends now target t
  stamped :
      (b : TaskStatus)
      → validate_task_status_transition t.status target ≡ ok tt
      → value b ≡ target
      → apply_task_status_transition now target t
        ≡ (ok tt, stamp b now (record t { status = value b }))
      → Ends now target t

apply_task_status_transition-Ends : (now : ℕ) (target : String) (t : Task) → Ends now target t
unfolding apply_task_status_transition
apply_task_status_transition-Ends now target t =
    elim (Result-cases (validate_task_status_transition t.status target)) [
      | inr (e, r) ↦ Ends.refused e (rw (r, apply_task_status_transition))
      | inl accepted ↦ elim (Option-cases (parse value members target)) [
        | inl unknown ↦
            Ends.refused Exception.value_error
              (rw (accepted, apply_task_status_transition, unknown))
        | inr (b, eb) ↦
            Ends.stamped b accepted (parse_sound value members target b eb)
              (rw (accepted, apply_task_status_transition, eb))
      ]
    ]

-- A transition to any target keeps this: work that has begun has its start time and a CREATED
-- or ASSIGNED task has none; a completed, failed or cancelled task has its completion time, and no
-- other task has one. A refused target changes nothing.
pub apply_task_status_transition-IsValid :
    (now : ℕ) (target : String) (t : Task)
    → IsValid t
    → IsValid (apply_task_status_transition now target t).1
apply_task_status_transition-IsValid now target t v =
    elim (apply_task_status_transition-Ends now target t) [
      | Ends.refused e r ↦ rw r v
      | Ends.stamped b accepted eb r ↦ rw r (
          stamp-IsValid b now t
            (rw eb (λ k. ground (
              arith,
              begins_work t.status target accepted,
              v.was_started,
              eq_iff target "IN_PROGRESS",
            )))
            (rw eb (λ k. v.not_started (stays_fresh t.status target accepted k)))
            (rw eb (λ k. v.not_ended (stays_open t.status target accepted k))))
    ]

-- The time at which work began is never moved.
pub apply_task_status_transition-started_at :
    (now : ℕ) (target : String) (t : Task) (began : ℕ)
    → t.started_at ≡ some began
    → (apply_task_status_transition now target t).1.started_at ≡ some began
apply_task_status_transition-started_at now target t began h =
    elim (apply_task_status_transition-Ends now target t) [
      | Ends.refused e r ↦ rw r h
      | Ends.stamped b accepted eb r ↦ rw r (stamp-started_at b now t began h)
    ]

-- A task that is BLOCKED has ended, but gets no completion time: a transition to BLOCKED, from any
-- status, leaves `completed_at` as it was.
pub blocked_not_stamped :
    (now : ℕ) (t : Task)
    → (apply_task_status_transition now "BLOCKED" t).1.completed_at ≡ t.completed_at
unfolding apply_task_status_transition
blocked_not_stamped now t = ground arith

-- A task that began as CREATED and is COMPLETED was IN_PROGRESS on the way.
pub completed_through_work :
    (ts : List String)
    → Accepted validate_task_status_transition "CREATED" ts
    → final "CREATED" ts ≡ "COMPLETED"
    → mem_str "IN_PROGRESS" ts ≡ true
completed_through_work ts a h =
    passes_gate validate_task_status_transition begun "IN_PROGRESS" begins_work "CREATED" ts a refl
      (rw h refl)
