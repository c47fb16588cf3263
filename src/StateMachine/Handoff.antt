-- ===== src/StateMachine/Handoff.antt =====
-- app/core/handoff_state.py: who handles a conversation, the AI or a person.
pub mod Laws
use multi_agent_ai_system.Prelude.{
  String, str_eq, lookup, Bool, true, false, ◌||◌, Option, none, some, List, [], ◌∷◌, if◌then◌else◌,
}
use multi_agent_ai_system.Core.Exceptions.{Exception, app_exception, Result, ok, err}
use multi_agent_ai_system.StateMachine.Table.{parse, validate_transition}

pub data HumanHandoffState : Type 0 where
  resume_ai ai_handoff_requested human_assigned human_in_progress resolved verify close :
      HumanHandoffState

abbrev pub value : HumanHandoffState → String
value resume_ai = "RESUME_AI"
value ai_handoff_requested = "AI_HANDOFF_REQUESTED"
value human_assigned = "HUMAN_ASSIGNED"
value human_in_progress = "HUMAN_IN_PROGRESS"
value resolved = "RESOLVED"
value verify = "VERIFY"
value close = "CLOSE"

abbrev pub members : List HumanHandoffState
members =
    resume_ai ∷ ai_handoff_requested ∷ human_assigned ∷ human_in_progress ∷ resolved ∷ verify
    ∷ close ∷ []

abbrev pub allowed_handoff_transitions : HumanHandoffState → List HumanHandoffState
allowed_handoff_transitions resume_ai = ai_handoff_requested ∷ close ∷ []
allowed_handoff_transitions ai_handoff_requested =
    human_assigned ∷ human_in_progress ∷ resume_ai ∷ close ∷ []
allowed_handoff_transitions human_assigned = human_in_progress ∷ resolved ∷ resume_ai ∷ close ∷ []
allowed_handoff_transitions human_in_progress = resolved ∷ verify ∷ resume_ai ∷ close ∷ []
allowed_handoff_transitions resolved = verify ∷ resume_ai ∷ close ∷ []
allowed_handoff_transitions verify = resume_ai ∷ human_in_progress ∷ close ∷ []
allowed_handoff_transitions close = resume_ai ∷ ai_handoff_requested ∷ []

abbrev pub invalid_handoff_transition : Exception
invalid_handoff_transition = app_exception "INVALID_HANDOFF_STATE_TRANSITION" 400

-- Equal texts pass first, so that a status that is no member may stay as it is.
unfoldable pub validate_handoff_state_transition : String → String → Result (Unit {0})
unfolding validate_transition
validate_handoff_state_transition current target =
    validate_transition value members allowed_handoff_transitions invalid_handoff_transition current
      target

-- `HANDOFF_TO_CONVERSATION_STATUS_MAP`, which has an entry for every member
abbrev pub handoff_to_conversation_status_map : HumanHandoffState → String
handoff_to_conversation_status_map ai_handoff_requested = "WAITING_HUMAN"
handoff_to_conversation_status_map human_assigned = "HUMAN_HANDLING"
handoff_to_conversation_status_map human_in_progress = "HUMAN_ACTIVE"
handoff_to_conversation_status_map resolved = "PENDING"
handoff_to_conversation_status_map verify = "PENDING"
handoff_to_conversation_status_map resume_ai = "OPEN"
handoff_to_conversation_status_map close = "CLOSED"

-- An attribute of an object: missing (`none`), null (`some none`), or a dictionary of texts.
abbrev pub Attribute : Type 0
Attribute = Option (Option (List (String × String)))

-- What the two functions below read and write of a conversation. The object may have an attribute
-- `metadata_` or `meta_data`; the mapped class `Conversation` has neither.
pub record Conversation : Type 0 where
  pub status : String
  pub human_handoff : Bool
  pub metadata_ : Attribute
  pub meta_data : Attribute

-- `getattr(c, "metadata_", {}) or getattr(c, "meta_data", {}) or {}`
abbrev pub or_empty : Attribute → List (String × String)
or_empty none = []
or_empty (some none) = []
or_empty (some (some d)) = d

abbrev pub or_else : List (String × String) → List (String × String) → List (String × String)
or_else [] e = e
or_else (x ∷ d) e = x ∷ d

abbrev pub meta : Conversation → List (String × String)
meta c = or_else (or_empty c.metadata_) (or_empty c.meta_data)

-- `d[k] = v`
abbrev pub set_key : String → String → List (String × String) → List (String × String)
set_key k v [] = (k, v) ∷ []
set_key k v ((j, w) ∷ d) = if str_eq k j then (j, v) ∷ d else (j, w) ∷ set_key k v d

abbrev pub derived_state : String → String
derived_state status =
    if str_eq status "WAITING_HUMAN"
    then value ai_handoff_requested
    else if str_eq status "HUMAN_HANDLING"
    then value human_assigned
    else if str_eq status "HUMAN_ACTIVE"
    then value human_in_progress
    else if str_eq status "PENDING"
    then value resolved
    else if str_eq status "CLOSED"
    then value close
    else value resume_ai

abbrev pub stored_or_derived : Option String → String → String
stored_or_derived none status = derived_state status
stored_or_derived (some state) status = if str_eq state "" then derived_state status else state

-- The stored state if there is one that is no empty text, else the one that the status stands for.
unfoldable pub get_handoff_lifecycle_state : Conversation → String
get_handoff_lifecycle_state c = stored_or_derived (lookup "handoff_state" (meta c)) c.status

abbrev handed_off : HumanHandoffState → Bool
handed_off ai_handoff_requested = true
handed_off human_assigned = true
handed_off human_in_progress = true
handed_off _ = false

-- `if hasattr(c, "metadata_"): … elif hasattr(c, "meta_data"): …`, for each of the two attributes
abbrev pub store_first : Attribute → List (String × String) → Attribute
store_first none m = none
store_first (some _) m = some (some m)

abbrev pub store_second : Attribute → Attribute → List (String × String) → Attribute
store_second (some _) second m = second
store_second none none m = none
store_second none (some _) m = some (some m)

-- The writes of a transition that was accepted.
enter : HumanHandoffState → Conversation → Conversation
enter s c =
    let m = set_key "handoff_state" (value s) (meta c) in
    record c {
      metadata_ = store_first c.metadata_ m;
      meta_data = store_second c.metadata_ c.meta_data m;
      human_handoff = handed_off s;
      status = handoff_to_conversation_status_map s;
    }

unfoldable pub sync_handoff_with_conversation_status :
    Conversation → String → Result String × Conversation
unfolding validate_handoff_state_transition get_handoff_lifecycle_state enter
sync_handoff_with_conversation_status c target =
    elim (validate_handoff_state_transition (get_handoff_lifecycle_state c) target) [
      | err e ↦ (err e, c)
      | ok _ ↦ elim (parse value members target) [
        | none ↦ (err Exception.value_error, c)
        | some s ↦ (ok (value s), enter s c)
      ]
    ]
