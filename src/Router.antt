-- ===== src/Router.antt =====
-- app/core/router: `DeterministicRouter` and `MessageRouter.route_message`. The two calls of the AI are
-- parameters that work in a world of their own: `classify_intent` the classification of the message, and
-- `assist` the context assembly with the answer. `money` and `count` print a price and a stock.
pub mod Laws
mod Tests
use Prim.Native.Char.{Char}
use Prim.Native.String.{◌++◌ as concat}
use text.Mathlib.Text.{find?}
use multi_agent_ai_system.Prelude.{
  ℕ, suc, ◌==◌, ltb, String, str_eq, mem_str, Bool, true, false, not, ◌&&◌, ◌||◌, Option, none,
  some, List, [], ◌∷◌, select, save, if◌then◌else◌,
}
use multi_agent_ai_system.Prelude.Text.{lower, is_space}
use multi_agent_ai_system.Core.Exceptions.{
  Result, ok, err, Action, pure, gets, modify, attempt, scalar_one_or_none, ◌>>=◌, ◌>>◌,
}

pub record Product : Type 0 where
  pub id : ℕ
  pub tenant_id : ℕ
  pub sku : Option String
  pub name : String
  pub price : ℕ
  pub stock : ℕ

pub record Conversation : Type 0 where
  pub id : ℕ
  pub tenant_id : ℕ
  pub customer_id : ℕ
  pub status : String
  pub human_handoff : Bool
  pub ai_enabled : Bool

-- `any(kw in lower for kw in …)`
abbrev pub contains : String → String → Bool
contains text word = elim (find? text word) [ some _ ↦ true | none ↦ false ]

abbrev pub any_keyword : List String → String → Bool
any_keyword [] text = false
any_keyword (kw ∷ kws) text = contains text kw || any_keyword kws text

unfoldable pub is_price_query : String → Bool
is_price_query text =
    any_keyword ("harga" ∷ "price" ∷ "berapa" ∷ "cost" ∷ "harganya" ∷ []) (lower text)

unfoldable pub is_stock_query : String → Bool
is_stock_query text =
    any_keyword ("stok" ∷ "stock" ∷ "ada" ∷ "ready" ∷ "sisa" ∷ "tersedia" ∷ []) (lower text)

unfoldable pub is_human_handoff_query : String → Bool
is_human_handoff_query text =
    any_keyword
      ("human" ∷ "agent" ∷ "admin" ∷ "cs" ∷ "customer service" ∷ "operator" ∷ "bantuan manusia"
        ∷ "hubungi cs" ∷ "bicara dengan cs" ∷ "human agent" ∷ "live agent" ∷ "bicarakan dengan cs"
        ∷ [])
      (lower text)

abbrev pub characters : String → ℕ
characters String.[] = 0
characters (String.◌∷◌ c s) = suc (characters s)

abbrev pub unless_empty : String → List String → List String
unless_empty word rest = if str_eq word "" then rest else word ∷ rest

-- `text.split()`: the word that begins the text, and the words after it.
abbrev pub split_words : String → String × List String
unfolding is_space
split_words String.[] = ("", [])
split_words (String.◌∷◌ c s) =
    let (word, words) = split_words s in
    if is_space c then ("", unless_empty word words) else (String.◌∷◌ c word, words)

abbrev pub words_of : String → List String
words_of text = let (word, words) = split_words text in unless_empty word words

abbrev pub all_in : List String → String → Bool
all_in [] text = true
all_in (word ∷ words) text = contains text word && all_in words text

abbrev pub is_nil : List String → Bool
is_nil [] = true
is_nil (w ∷ ws) = false

abbrev pub by_sku : String → Product → Bool
by_sku text product = elim product.sku [
  | none ↦ false
  | some sku ↦ not (str_eq sku "") && contains text (lower sku)
]

abbrev pub by_name : String → Product → Bool
by_name text product = not (str_eq product.name "") && contains text (lower product.name)

abbrev pub by_words : String → Product → Bool
by_words text product =
    let words = select (λ w. ltb 2 (characters w)) (words_of (lower product.name)) in
    not (is_nil words) && all_in words text

abbrev pub first_where : (Product → Bool) → List Product → Option Product
first_where test [] = none
first_where test (product ∷ products) =
    let rest = first_where test products in if test product then some product else rest

abbrev pub or_option : Option Product → Option Product → Option Product
or_option none other = other
or_option (some product) other = some product

abbrev pub take : ℕ → List Product → List Product
take n [] = []
take ℕ.zero (p ∷ ps) = []
take (ℕ.suc n) (p ∷ ps) = p ∷ take n ps

-- `list_all(tenant_id=…, limit=200)`
abbrev pub products_of : ℕ → List Product → List Product
products_of tenant_id products = take 200 (select (λ p. p.tenant_id == tenant_id) products)

unfoldable pub match_product : ℕ → String → List Product → Option Product
match_product tenant_id query_text all_products =
    let products = products_of tenant_id all_products in
    let cleaned_text = lower query_text in
    or_option (first_where (by_sku cleaned_text) products) (
      or_option (first_where (by_name cleaned_text) products)
        (first_where (by_words cleaned_text) products))

pub record RouterResult : Type 0 where
  pub response_text : String
  pub was_ai_called : Bool
  pub handsoff_to_human : Bool
  pub matched_product : Option Product

pub record StructuredIntent : Type 0 where
  pub action : Option String
  pub product_name_query : Option String
  pub product_sku : Option String

pub record RouterState (W : Type 0) : Type 0 where
  pub conversations : List Conversation
  pub products : List Product
  pub world : W

abbrev pub is_human_owned : Conversation → Bool
is_human_owned c =
    c.human_handoff
    || not c.ai_enabled
    || mem_str c.status ("WAITING_HUMAN" ∷ "HUMAN_HANDLING" ∷ "HUMAN_ACTIVE" ∷ "CLOSED" ∷ [])

abbrev pub reply : String → Bool → Bool → Option Product → RouterResult
reply text was_ai_called handsoff product = record {
  response_text = text;
  was_ai_called = was_ai_called;
  handsoff_to_human = handsoff;
  matched_product = product;
}

-- `a or b or text`
abbrev pub or_text : Option String → String → String
or_text none other = other
or_text (some t) other = if str_eq t "" then other else t

abbrev pub key_of : Conversation → ℕ
key_of c = c.id

abbrev pub is_conversation : ℕ → ℕ → Conversation → Bool
is_conversation tenant_id id c = c.tenant_id == tenant_id && c.id == id

abbrev pub or_conversation : Option Conversation → Conversation → Conversation
or_conversation none given = given
or_conversation (some fresh) given = fresh

module _ (money count : ℕ → String) where
  abbrev pub price_text : Product → String
  price_text p = concat "Harga " (concat p.name (concat " adalah Rp " (money p.price)))

  -- The reply to a question of price, of stock or of both.
  abbrev pub catalogue_reply : Bool → Bool → Product → RouterResult
  catalogue_reply is_price is_stock p =
      if is_price && not is_stock
      then reply (concat (price_text p) ".") false false (some p)
      else if is_stock && not is_price
      then reply
          (concat "Stok "
            (concat p.name (concat " saat ini tersedia " (concat (count p.stock) " unit."))))
          false false (some p)
      else reply
          (concat (price_text p) (concat " dan stok tersedia " (concat (count p.stock) " unit.")))
          false false (some p)

  abbrev pub intent_reply : String → Product → RouterResult
  intent_reply action p =
      if str_eq action "GET_PRODUCT_PRICE"
      then reply (concat (price_text p) ".") true false (some p)
      else reply
          (concat "Stok " (concat p.name (concat " tersedia " (concat (count p.stock) " unit."))))
          true false (some p)

  abbrev pub map_reply : (Product → RouterResult) → Option Product → Option RouterResult
  map_reply f none = none
  map_reply f (some p) = some (f p)

  -- The reply that the intent of the message makes possible, if any
  abbrev pub from_action :
      ℕ → String → Option String → StructuredIntent → List Product → Option RouterResult
  from_action tenant_id text none intent products = none
  from_action tenant_id text (some action) intent products =
      if mem_str action ("GET_PRODUCT_PRICE" ∷ "GET_PRODUCT_STOCK" ∷ [])
      then map_reply (intent_reply action) (
          match_product tenant_id
            (or_text intent.product_name_query (or_text intent.product_sku text)) products)
      else none

  abbrev pub from_intent : ℕ → String → Option StructuredIntent → List Product → Option RouterResult
  from_intent tenant_id text none products = none
  from_intent tenant_id text (some intent) products =
      from_action tenant_id text intent.action intent products

-- The last resort: an answer of the AI, or an apology when it fails.
abbrev pub assisted : Result String → RouterResult
assisted (ok text) = reply text true false none
assisted (err e) =
    reply
      "Maaf, sistem kami sedang mengalami gangguan. Pesan Anda telah diteruskan ke tim support kami."
      false false none

module _ {W : Type 0} where
  abbrev pub on_world : {A : Type 0} → Action W A → Action (RouterState W) A
  on_world m s = let (r, world) = m s.world in (r, record s { world = world })

  abbrev pub hand_off : Conversation → Action (RouterState W) RouterResult
  hand_off conversation s = (
    ok (
        reply "Pesan Anda telah diteruskan ke tim support kami. Mohon tunggu sejenak." false true
          none),
    record s {
      conversations =
          save key_of (record conversation { human_handoff = true; status = "WAITING_HUMAN" })
            s.conversations;
    },
  )

module _ {W : Type 0} (money count : ℕ → String)
    (classify_intent : String → Action W (Option StructuredIntent))
    (assist : Conversation → String → Action W String) (tenant_id : ℕ) where
  unfoldable pub ask_assistant : Conversation → String → Action (RouterState W) RouterResult
  ask_assistant conversation text =
      attempt (on_world (assist conversation text)) >>= λ answer. pure (assisted answer)

  abbrev pub or_assistant :
      Conversation → String → Option RouterResult → Action (RouterState W) RouterResult
  or_assistant conversation text none = ask_assistant conversation text
  or_assistant conversation text (some result) = pure result

  abbrev pub after_intent :
      Conversation → String → Result (Option StructuredIntent) → Action (RouterState W) RouterResult
  after_intent conversation text (err e) s = ask_assistant conversation text s
  after_intent conversation text (ok intent) s =
      or_assistant conversation text (from_intent money count tenant_id text intent s.products) s

  unfoldable pub ask_ai : Conversation → String → Action (RouterState W) RouterResult
  unfolding ask_assistant
  ask_ai conversation text =
      attempt (on_world (classify_intent text)) >>= λ intent. after_intent conversation text intent

  -- The reply on the product that was matched, or else the AI
  abbrev pub or_ai : Conversation → String → Option Product → Action (RouterState W) RouterResult
  or_ai conversation text none = ask_ai conversation text
  or_ai conversation text (some p) =
      pure (catalogue_reply money count (is_price_query text) (is_stock_query text) p)

  unfoldable pub answer_question : Conversation → String → Action (RouterState W) RouterResult
  unfolding is_price_query is_stock_query match_product ask_ai
  answer_question conversation text s =
      (if is_price_query text || is_stock_query text
          then or_ai conversation text (match_product tenant_id text s.products)
          else ask_ai conversation text)
        s

  -- The reply to a message in a conversation that was read afresh.
  unfoldable pub route_fresh : Conversation → String → Action (RouterState W) RouterResult
  unfolding is_human_handoff_query answer_question
  route_fresh conversation text =
      if is_human_owned conversation
      then pure (reply "[SYSTEM] Message logged for human agent." false true none)
      else if is_human_handoff_query text
      then hand_off conversation
      else answer_question conversation text

  unfoldable pub route_message : Conversation → Option String → Action (RouterState W) RouterResult
  unfolding route_fresh
  route_message conversation text = do
    found ← λ s.
        scalar_one_or_none (select (is_conversation tenant_id conversation.id) s.conversations) s
    route_fresh (or_conversation found conversation) (or_text text "")
