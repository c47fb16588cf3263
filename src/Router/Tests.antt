-- ===== src/Router/Tests.antt =====
-- Messages at which the theorems are tried. The world counts the calls of the AI, which is down.
use multi_agent_ai_system.Prelude.{ℕ, String, true, false, Option, none, some, [], ◌∷◌, ◌≡◌, refl}
use multi_agent_ai_system.Prelude.Text.{lower, is_space, decimal}
use multi_agent_ai_system.Core.Exceptions.{value_error, Action, ok, err}
use multi_agent_ai_system.Core.Triples.{Holds}
use multi_agent_ai_system.Router.{
  Product, Conversation, StructuredIntent, RouterState, reply, is_human_handoff_query,
  match_product, route_fresh, route_message,
}
use multi_agent_ai_system.Router.Laws.{
  Hands, Never, OwnedByPeople, route_fresh-Hands, route_message-owned,
}

abbrev classify_intent : String → Action ℕ (Option StructuredIntent)
classify_intent text calls = (err value_error, ℕ.suc calls)

abbrev assist : Conversation → String → Action ℕ String
assist conversation text calls = (err value_error, ℕ.suc calls)

abbrev conversation : String → Conversation
conversation status = record {
  id = 3;
  tenant_id = 7;
  customer_id = 9;
  status = status;
  human_handoff = false;
  ai_enabled = true;
}

abbrev shirt : Product
shirt = record {
  id = 1;
  tenant_id = 7;
  sku = none;
  name = "Kemeja Batik";
  price = 150000;
  stock = 4;
}

abbrev state : RouterState ℕ
state = record {
  conversations = conversation "HUMAN_HANDLING" ∷ [];
  products = shirt ∷ [];
  world = 0;
}

route_fresh-Hands_example :
    Holds
      (Hands false (conversation "HUMAN_HANDLING" ∷ []))
      Never
      (route_fresh decimal decimal classify_intent assist 7 (conversation "ACTIVE") "halo" state)
unfolding is_human_handoff_query lower
route_fresh-Hands_example =
    route_fresh-Hands decimal decimal classify_intent assist 7 (conversation "ACTIVE") "halo" state

route_message-owned_example :
    route_message decimal decimal classify_intent assist 7
      (conversation "ACTIVE")
      (some "harga")
      state
    ≡ (ok (reply "[SYSTEM] Message logged for human agent." false true none), state)
route_message-owned_example =
    route_message-owned decimal decimal classify_intent assist 7 (conversation "ACTIVE")
      (conversation "HUMAN_HANDLING") (some "harga") state refl (OwnedByPeople.human_handling refl)

by_words : match_product 7 "ada batik model kemeja?" (shirt ∷ []) ≡ some shirt
unfolding match_product lower is_space
by_words = refl

-- "cs" is a part of a word here.
asks_for_people : is_human_handoff_query "Macs Book" ≡ true
unfolding is_human_handoff_query lower
asks_for_people = refl
