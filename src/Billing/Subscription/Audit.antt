-- ===== src/Billing/Subscription/Audit.antt =====
-- The audit trail of subscriptions: the invariant, and what keeps it.
use multi_agent_ai_system.Prelude.{
  ℕ, suc, ◌<◌, ◌==◌, String, Option, none, some, List, [], ◌∷◌, ◌++◌, save, All, All-save,
  All-append, ◌≡◌, refl, inl, inr, arith, Bool, Bool-cases, if◌then◌else◌,
}
use multi_agent_ai_system.Core.Exceptions.{ok}
use multi_agent_ai_system.Billing.Models.{Subscription, SubscriptionHistory}
use multi_agent_ai_system.Billing.Session.{Session}
use multi_agent_ai_system.Billing.Status.{validate_subscription_transition}

abbrev or_status : Option String → Bool → String → Option String
or_status (some later) same status = some later
or_status none same status = if same then some status else none

-- The status that the last history row of a subscription records.
abbrev pub last_status : ℕ → List SubscriptionHistory → Option String
last_status id [] = none
last_status id (h ∷ hs) = or_status (last_status id hs) (h.subscription_id == id) h.new_status

-- A history row records a change that the state machine allows, or a beginning.
abbrev pub IsLawful : Option String → String → Type 0
IsLawful none new = Unit
IsLawful (some old) new = validate_subscription_transition old new ≡ ok tt

abbrev pub IsLogged : List SubscriptionHistory → ℕ → Subscription → Type 0
IsLogged hs n r = (last_status r.id hs ≡ some r.status) × (r.id < n)

-- Each subscription has the status that its last history row records and an identifier that was handed
-- out, and each history row is lawful.
pub record IsAudited (subs : List Subscription) (hs : List SubscriptionHistory) (n : ℕ)
    : Type 0 where
  pub logged : All (IsLogged hs n) subs
  pub lawful : All (λ h. IsLawful h.previous_status h.new_status) hs

-- The session's view, and what it has committed.
pub record Audit (s : Session) : Type 0 where
  pub view_ok : IsAudited s.view.subscriptions s.view.histories s.next_id
  pub stored_ok : IsAudited s.stored.subscriptions s.stored.histories s.next_id

last_status-append :
    (id : ℕ) (hs : List SubscriptionHistory) (h : SubscriptionHistory)
    → last_status id (hs ++ h ∷ [])
      ≡ (if h.subscription_id == id then some h.new_status else last_status id hs)
last_status-append id [] h = refl
last_status-append id (g ∷ hs) h = ground (arith, last_status-append id hs h)

pub All-IsLogged_more :
    (hs : List SubscriptionHistory) (n : ℕ) (subs : List Subscription)
    → All (IsLogged hs n) subs
    → All (IsLogged hs (suc n)) subs
All-IsLogged_more hs n [] a = tt
All-IsLogged_more hs n (r ∷ subs) a = ((a.0.0, omega arith), All-IsLogged_more hs n subs a.1)

-- Saving a subscription with a history row of its status.
All-IsLogged-save :
    (hs : List SubscriptionHistory) (n : ℕ) (x : Subscription) (h : SubscriptionHistory)
    (subs : List Subscription)
    → h.subscription_id ≡ x.id
    → h.new_status ≡ x.status
    → x.id < n
    → All (IsLogged hs n) subs
    → All (IsLogged (hs ++ h ∷ []) n) (save (λ r. r.id) x subs)
All-IsLogged-save hs n x h [] same_id same_status old a = tt
All-IsLogged-save hs n x h (r ∷ subs) same_id same_status old a =
    let rest = All-IsLogged-save hs n x h subs same_id same_status old a.1 in
    elim (Bool-cases (r.id == x.id)) [
      | inl same ↦ rw same ((ground (arith, last_status-append x.id hs h), old), rest)
      | inr other ↦ rw other ((ground (arith, last_status-append r.id hs h, a.0.0), a.0.1), rest)
    ]

-- Adding a subscription under a fresh identifier with a history row of its status.
All-IsLogged_add :
    (hs : List SubscriptionHistory) (n : ℕ) (x : Subscription) (h : SubscriptionHistory)
    (subs : List Subscription)
    → h.subscription_id ≡ x.id
    → h.new_status ≡ x.status
    → x.id ≡ n
    → All (IsLogged hs n) subs
    → All (IsLogged (hs ++ h ∷ []) (suc n)) (subs ++ x ∷ [])
All-IsLogged_add hs n x h [] same_id same_status fresh a =
    ((ground (arith, last_status-append x.id hs h), omega arith), tt)
All-IsLogged_add hs n x h (r ∷ subs) same_id same_status fresh a = (
  (ground (arith, last_status-append r.id hs h, a.0.0, a.0.1), omega arith),
  All-IsLogged_add hs n x h subs same_id same_status fresh a.1,
)

module _ (hs : List SubscriptionHistory) (n : ℕ) (x : Subscription) (subs : List Subscription) where
  -- Saving a subscription whose status does not change.
  pub save-IsAudited :
      IsAudited subs hs n → IsLogged hs n x → IsAudited (save (λ r. r.id) x subs) hs n
  save-IsAudited a k = record {
    logged = All-save (IsLogged hs n) (λ r. r.id) x subs a.logged k;
    lawful = a.lawful;
  }

module _ (hs : List SubscriptionHistory) (n : ℕ) (x : Subscription) (h : SubscriptionHistory)
    (subs : List Subscription) (same_id : h.subscription_id ≡ x.id)
    (same_status : h.new_status ≡ x.status) (law : IsLawful h.previous_status h.new_status) where
  pub move-IsAudited :
      IsAudited subs hs n → x.id < n → IsAudited (save (λ r. r.id) x subs) (hs ++ h ∷ []) n
  move-IsAudited a old = record {
    logged = All-IsLogged-save hs n x h subs same_id same_status old a.logged;
    lawful =
        All-append (λ g. IsLawful g.previous_status g.new_status) hs (h ∷ []) a.lawful (law, tt);
  }

  pub add-IsAudited :
      IsAudited subs hs n → x.id ≡ n → IsAudited (subs ++ x ∷ []) (hs ++ h ∷ []) (suc n)
  add-IsAudited a fresh = record {
    logged = All-IsLogged_add hs n x h subs same_id same_status fresh a.logged;
    lawful =
        All-append (λ g. IsLawful g.previous_status g.new_status) hs (h ∷ []) a.lawful (law, tt);
  }

  pub move-IsLogged : x.id < n → IsLogged (hs ++ h ∷ []) n x
  move-IsLogged old = (ground (arith, last_status-append x.id hs h), old)

pub more-IsAudited :
    (subs : List Subscription) (hs : List SubscriptionHistory) (n : ℕ)
    → IsAudited subs hs n
    → IsAudited subs hs (suc n)
more-IsAudited subs hs n a = record {
  logged = All-IsLogged_more hs n subs a.logged;
  lawful = a.lawful;
}
