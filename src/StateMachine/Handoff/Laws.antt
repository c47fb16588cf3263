-- ===== src/StateMachine/Handoff/Laws.antt =====
-- The handoff of a conversation (app/core/handoff_state.py): what a reading finds after a
-- synchronisation.
use multi_agent_ai_system.Prelude.{
  String, str_eq, none, some, Option-cases, List, [], ◌≡◌, refl, inl, inr, arith, ◌∙◌,
  if◌then◌else◌,
}
use multi_agent_ai_system.Core.Exceptions.{Exception, ok, err, Result-cases}
use multi_agent_ai_system.StateMachine.Table.{parse, parse_sound}
use multi_agent_ai_system.StateMachine.Handoff.{
  Attribute, HumanHandoffState, value, members, Conversation, meta, set_key,
  get_handoff_lifecycle_state, enter, handoff_to_conversation_status_map,
  validate_handoff_state_transition, sync_handoff_with_conversation_status, or_else, or_empty,
  store_first, store_second, derived_state,
}

-- How a synchronisation ends.
data Ends (c : Conversation) (target : String) : Type 0 where
  refused :
      (e : Exception) → sync_handoff_with_conversation_status c target ≡ (err e, c) → Ends c target
  entered :
      (s : HumanHandoffState)
      → value s ≡ target
      → sync_handoff_with_conversation_status c target ≡ (ok target, enter s c)
      → Ends c target

sync-Ends : (c : Conversation) (target : String) → Ends c target
unfolding sync_handoff_with_conversation_status
sync-Ends c target =
    elim (Result-cases (validate_handoff_state_transition (get_handoff_lifecycle_state c) target)) [
      | inr (e, r) ↦ Ends.refused e (rw (r, sync_handoff_with_conversation_status))
      | inl accepted ↦ elim (Option-cases (parse value members target)) [
        | inl unknown ↦
            Ends.refused Exception.value_error
              (rw (accepted, sync_handoff_with_conversation_status, unknown))
        | inr (s, es) ↦ Ends.entered s (parse_sound value members target s es) (
            rw (
              accepted,
              sync_handoff_with_conversation_status,
              es,
              parse_sound value members target s es,
            ))
      ]
    ]

derived :
    (s : HumanHandoffState)
    → derived_state (handoff_to_conversation_status_map s)
      ≡ (if str_eq (value s) "VERIFY" then "RESOLVED" else value s)
derived HumanHandoffState.resume_ai = refl
derived _ = refl

meta-bare :
    (m : List (String × String)) (first second : Attribute)
    → first ≡ none
    → second ≡ none
    → or_else (or_empty (store_first first m)) (or_empty (store_second first second m)) ≡ []
meta-bare m none none h k = refl
meta-bare m none (some d) h k = cc
meta-bare m (some d) second h k = cc

-- Without an attribute the state that is read is the one that the new status stands for.
get-enter_bare :
    (s : HumanHandoffState) (c : Conversation)
    → c.metadata_ ≡ none
    → c.meta_data ≡ none
    → get_handoff_lifecycle_state (enter s c) ≡ derived_state (handoff_to_conversation_status_map s)
unfolding get_handoff_lifecycle_state enter
get-enter_bare s c h k =
    rw (meta-bare (set_key "handoff_state" (value s) (meta c)) c.metadata_ c.meta_data h k) refl

-- On a conversation without an attribute for its metadata, as the mapped class is, an accepted
-- synchronisation is read back exactly if the target is not VERIFY: that state is read as RESOLVED.
pub sync_bare_read_back :
    (c : Conversation) (target : String)
    → c.metadata_ ≡ none
    → c.meta_data ≡ none
    → (sync_handoff_with_conversation_status c target).0 ≡ ok target
    → get_handoff_lifecycle_state (sync_handoff_with_conversation_status c target).1
      ≡ (if str_eq target "VERIFY" then "RESOLVED" else target)
sync_bare_read_back c target h k accepted = elim (sync-Ends c target) [
  | Ends.refused e r ↦ ground arith
  | Ends.entered s es r ↦ rw (r, ← es) (get-enter_bare s c h k ∙ derived s)
]
