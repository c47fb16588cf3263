-- ===== src/Router/Laws.antt =====
-- When a message reaches the AI, and when it is handed to people (app/core/router).
use multi_agent_ai_system.Prelude.{
  ℕ, String, Bool, true, false, not, ◌||◌, save, Option, none, some, mem_str, select, List, [], ◌∷◌,
  ◌≡◌, refl, ◌∙◌, ap, inl, inr, arith, Bool-cases,
}
use multi_agent_ai_system.Core.Exceptions.{
  Result, ok, err, Action, bind_ok, scalar_one_or_none, ◌>>=◌,
}
use multi_agent_ai_system.Core.Triples.{Holds, Triple, either_rule}
use multi_agent_ai_system.Router.{
  Product, Conversation, RouterResult, StructuredIntent, RouterState, is_human_owned,
  is_price_query, is_stock_query, is_human_handoff_query, match_product, from_intent, from_action,
  map_reply, or_assistant, or_ai, assisted, ask_assistant, after_intent, ask_ai, catalogue_reply,
  intent_reply, answer_question, route_fresh, route_message, is_conversation, reply, key_of,
}

module _ {W : Type 0} where
  -- A reply that hands the conversation to people exactly where `b` says so, and leaves these rows.
  abbrev pub Hands : Bool → List Conversation → RouterResult → RouterState W → Type 0
  Hands b rows result s = (result.handsoff_to_human ≡ b) × (s.conversations ≡ rows)

  abbrev Keeps : List Conversation → RouterState W → Type 0
  Keeps rows s = s.conversations ≡ rows

  abbrev pub Never : RouterState W → Type 0
  Never s = ⊥

-- A conversation that people own: it was handed off, the AI is off, or its status says so.
pub data OwnedByPeople (c : Conversation) : Type 0 where
  handed_off : c.human_handoff ≡ true → OwnedByPeople c
  without_ai : c.ai_enabled ≡ false → OwnedByPeople c
  waiting_human : c.status ≡ "WAITING_HUMAN" → OwnedByPeople c
  human_handling : c.status ≡ "HUMAN_HANDLING" → OwnedByPeople c
  human_active : c.status ≡ "HUMAN_ACTIVE" → OwnedByPeople c
  closed : c.status ≡ "CLOSED" → OwnedByPeople c

or_true : (a b : Bool) → (a || b || true) ≡ true
or_true a b = ground arith

OwnedByPeople-is_human_owned : (c : Conversation) → OwnedByPeople c → is_human_owned c ≡ true
OwnedByPeople-is_human_owned c (handed_off h) = rw h refl
OwnedByPeople-is_human_owned c (without_ai h) = rw h (ground arith)
OwnedByPeople-is_human_owned c (waiting_human h) = rw h (or_true c.human_handoff (not c.ai_enabled))
OwnedByPeople-is_human_owned c (human_handling h) =
    rw h (or_true c.human_handoff (not c.ai_enabled))
OwnedByPeople-is_human_owned c (human_active h) = rw h (or_true c.human_handoff (not c.ai_enabled))
OwnedByPeople-is_human_owned c (closed h) = rw h (or_true c.human_handoff (not c.ai_enabled))

-- The rows after a message: the conversation waits for people where the customer asks and nobody owns it.
abbrev pub handed : Bool → Bool → Conversation → List Conversation → List Conversation
handed true asks c rows = rows
handed false false c rows = rows
handed false true c rows =
    save key_of (record c { human_handoff = true; status = "WAITING_HUMAN" }) rows

module _ {W : Type 0} (money count : ℕ → String)
    (classify_intent : String → Action W (Option StructuredIntent))
    (assist : Conversation → String → Action W String) (tenant_id : ℕ) where
  assisted-Hands : (answer : Result String) → (assisted answer).handsoff_to_human ≡ false
  assisted-Hands (ok text) = refl
  assisted-Hands (err e) = refl

  ask_assistant-Hands :
      (rows : List Conversation) (c : Conversation) (text : String)
      → Triple
          (Keeps rows)
          (ask_assistant money count classify_intent assist tenant_id c text)
          (Hands false rows)
          Never
  unfolding ask_assistant ◌>>=◌
  ask_assistant-Hands rows c text s h = (assisted-Hands (assist c text s.world).0, h)

  intent_reply-Hands :
      (action : String) (p : Product)
      → (intent_reply money count action p).handsoff_to_human ≡ false
  intent_reply-Hands action p = ground arith

  catalogue_reply-Hands :
      (is_price is_stock : Bool) (p : Product)
      → (catalogue_reply money count is_price is_stock p).handsoff_to_human ≡ false
  catalogue_reply-Hands is_price is_stock p = ground arith

  NoHands : Option RouterResult → Type 0
  NoHands none = Unit
  NoHands (some result) = result.handsoff_to_human ≡ false

  map_reply-NoHands :
      (action : String) (o : Option Product)
      → NoHands (map_reply money count (intent_reply money count action) o)
  unfolding NoHands
  map_reply-NoHands action none = tt
  map_reply-NoHands action (some p) = intent_reply-Hands action p

  from_action-NoHands :
      (text : String) (action : Option String) (intent : StructuredIntent) (products : List Product)
      → NoHands (from_action money count tenant_id text action intent products)
  unfolding NoHands
  from_action-NoHands text none intent products = tt
  from_action-NoHands text (some action) intent products =
      elim (Bool-cases (mem_str action ("GET_PRODUCT_PRICE" ∷ "GET_PRODUCT_STOCK" ∷ []))) [
        | inl asked ↦ rw asked (map_reply-NoHands action _)
        | inr other ↦ rw other tt
      ]

  or_assistant-Hands :
      (rows : List Conversation) (c : Conversation) (text : String) (o : Option RouterResult)
      → NoHands o
      → Triple
          (Keeps rows)
          (or_assistant money count classify_intent assist tenant_id c text o)
          (Hands false rows)
          Never
  unfolding NoHands
  or_assistant-Hands rows c text none h s k = ask_assistant-Hands rows c text s k
  or_assistant-Hands rows c text (some result) h s k = (h, k)

  from_intent-NoHands :
      (text : String) (intent : Option StructuredIntent) (products : List Product)
      → NoHands (from_intent money count tenant_id text intent products)
  unfolding NoHands
  from_intent-NoHands text none products = tt
  from_intent-NoHands text (some intent) products =
      from_action-NoHands text intent.action intent products

  after_intent-Hands :
      (rows : List Conversation) (c : Conversation) (text : String)
      (intent : Result (Option StructuredIntent))
      → Triple
          (Keeps rows)
          (after_intent money count classify_intent assist tenant_id c text intent)
          (Hands false rows)
          Never
  after_intent-Hands rows c text (err e) s h = ask_assistant-Hands rows c text s h
  after_intent-Hands rows c text (ok intent) s h =
      or_assistant-Hands rows c text (from_intent money count tenant_id text intent s.products)
        (from_intent-NoHands text intent s.products) s h

  ask_ai-Hands :
      (rows : List Conversation) (c : Conversation) (text : String)
      → Triple
          (Keeps rows)
          (ask_ai money count classify_intent assist tenant_id c text)
          (Hands false rows)
          Never
  unfolding ask_ai ◌>>=◌
  ask_ai-Hands rows c text s h =
      after_intent-Hands rows c text (classify_intent text s.world).0
        (record s { world = (classify_intent text s.world).1 }) h

  or_ai-Hands :
      (rows : List Conversation) (c : Conversation) (text : String) (o : Option Product)
      → Triple
          (Keeps rows)
          (or_ai money count classify_intent assist tenant_id c text o)
          (Hands false rows)
          Never
  or_ai-Hands rows c text none s h = ask_ai-Hands rows c text s h
  or_ai-Hands rows c text (some p) s h =
      (catalogue_reply-Hands (is_price_query text) (is_stock_query text) p, h)

  answer_question-Hands :
      (rows : List Conversation) (c : Conversation) (text : String)
      → Triple
          (Keeps rows)
          (answer_question money count classify_intent assist tenant_id c text)
          (Hands false rows)
          Never
  unfolding answer_question
  answer_question-Hands rows c text s h =
      either_rule (Keeps rows) (Hands false rows) Never (is_price_query text || is_stock_query text)
        (or_ai money count classify_intent assist tenant_id c text
          (match_product tenant_id text s.products))
        (ask_ai money count classify_intent assist tenant_id c text)
        (or_ai-Hands rows c text (match_product tenant_id text s.products))
        (ask_ai-Hands rows c text) s h

  -- Whatever the AI does, a message is answered, and the answer says that the conversation is handed to
  -- people exactly where people own it already or the customer asked for them; it is marked as waiting
  -- for them exactly where the customer asked and nobody owned it, and else no conversation changes.
  pub route_fresh-Hands :
      (c : Conversation) (text : String) (s : RouterState W)
      → Holds
          (Hands
            (is_human_owned c || is_human_handoff_query text)
            (handed (is_human_owned c) (is_human_handoff_query text) c s.conversations))
          Never
          (route_fresh money count classify_intent assist tenant_id c text s)
  unfolding route_fresh
  route_fresh-Hands c text s = elim (Bool-cases (is_human_owned c)) [
    | inl owned ↦ rw (owned, route_fresh) (refl, refl)
    | inr free ↦ elim (Bool-cases (is_human_handoff_query text)) [
      | inl asks ↦ rw (free, route_fresh, asks) (refl, refl)
      | inr talks ↦
          rw (free, route_fresh, talks) (answer_question-Hands s.conversations c text s refl)
    ]
  ]

  -- A message in a conversation that people own by now (it was handed off, its AI is off, or its status
  -- says so) changes nothing and reaches no AI, whatever the
  -- caller, who may have read the row before they took it over, holds of the conversation.
  pub route_message-owned :
      (stale c : Conversation) (text : Option String) (s : RouterState W)
      → select (is_conversation tenant_id stale.id) s.conversations ≡ c ∷ []
      → OwnedByPeople c
      → route_message money count classify_intent assist tenant_id stale text s
        ≡ (ok (reply "[SYSTEM] Message logged for human agent." false true none), s)
  unfolding route_message
  route_message-owned stale c text s found owned =
      bind_ok _ _ s s (some c)
        (ap (λ rows. scalar_one_or_none {S = RouterState W} {A = Conversation} rows s) found)
      ∙ rw (OwnedByPeople-is_human_owned c owned, route_fresh) refl
