-- ===== src/Billing/Entitlement/Laws.antt =====
-- What a tenant may use: limits, add-ons and the end of a subscription.
use multi_agent_ai_system.Prelude.{
  ℕ, ◌==◌, ◌≤◌, ◌<◌, String, str_eq, mem_str, lookup, true, false, Bool-cases, Option, none, some,
  Option-cases, List, [], ◌∷◌, select, ◌≡◌, refl, ◌∙◌, ◌⊎◌, inl, inr, ◌↔◌, if◌then◌else◌, arith,
  All, subst,
}
use multi_agent_ai_system.Prelude.Int.{ℤ, pos, negsuc, ◌+ℤ◌, ◌≤ℤ◌, ltb_ℤ, eq_ℤ, int_laws}
use multi_agent_ai_system.Core.Exceptions.{ok, bind_ok}
use multi_agent_ai_system.Billing.Models.{Subscription, Addon}
use multi_agent_ai_system.Billing.Session.{Session}
use multi_agent_ai_system.Billing.Subscription.Lookup.{get_subscription_or_none}
use multi_agent_ai_system.Billing.Entitlement.{
  AccessState, check_subscription_temporal_validity, add_grants, get_limit, can_use, access_at,
  evaluate_metric_access, time_or, deny, is_restricted_away,
}

-- A usage is allowed when there is no limit (-1) or when it is below the limit, and in no other case; a
-- usage is not negative.
pub access_at-allowed :
    (limit : ℤ) (metric : String) (usage : ℕ)
    → ((access_at limit metric (pos usage)).allowed ≡ true)
      ↔ ((limit ≡ negsuc 0) ⊎ (ltb_ℤ (pos usage) limit ≡ true))
unfolding access_at
access_at-allowed (pos limit) metric usage = ground arith
access_at-allowed (negsuc limit) metric usage = ground arith

-- What an add-on may say of a limit
abbrev GrantCase : Option ℤ → Type 0
GrantCase none = Unit
GrantCase (some more) = (more ≡ negsuc 0) ⊎ (pos 0 ≤ℤ more)

grant_not_lifted : (more : ℤ) → GrantCase (some more) → eq_ℤ more (negsuc 0) ≡ false → pos 0 ≤ℤ more
grant_not_lifted (pos n) g h = omega arith
grant_not_lifted (negsuc n) g h = ground arith

raised_further :
    (base more result : ℤ)
    → pos 0 ≤ℤ more
    → (result ≡ negsuc 0) ⊎ ((base +ℤ more) ≤ℤ result)
    → (result ≡ negsuc 0) ⊎ (base ≤ℤ result)
raised_further base more result g (inl lifted) = inl lifted
raised_further base more result g (inr more_or_equal) = inr (grind int_laws)

-- An add-on grants nothing, no limit at all, or something that is not negative.
abbrev pub HasGrant : String → Addon → Type 0
HasGrant metric a = GrantCase (lookup metric a.limit_grant)

-- Such add-ons never lower a limit: they lift it, or raise it, or leave it.
pub add_grants-raises :
    (addons : List Addon) (metric : String) (base : ℤ)
    → All (HasGrant metric) addons
    → (add_grants addons metric base ≡ negsuc 0) ⊎ (base ≤ℤ add_grants addons metric base)
unfolding add_grants
add_grants-raises [] metric base h = inr (omega arith)
add_grants-raises (a ∷ addons) metric base h = elim (Option-cases (lookup metric a.limit_grant)) [
  | inl missing ↦ rw (missing, add_grants) (add_grants-raises addons metric base h.1)
  | inr (more, found) ↦
      rw (found, add_grants)
        (elim (Bool-cases (eq_ℤ more (negsuc 0))) [
          | inl lifted ↦ rw lifted (inl refl)
          | inr counted ↦ rw counted (
              raised_further base more _
                (grant_not_lifted more (subst (λ o. GrantCase o) found h.0) counted)
                (add_grants-raises addons metric (base +ℤ more) h.1))
        ])
]

-- The time at which a subscription ends, by its status
abbrev pub end_of : Subscription → ℕ
end_of sub =
    if str_eq sub.status "TRIALING"
    then time_or sub.trial_end sub.current_period_end
    else sub.current_period_end

-- A subscription is valid exactly when it is not expired, archived or suspended and its end lies ahead.
pub validity_iff :
    (now : ℕ) (sub : Subscription)
    → (check_subscription_temporal_validity now sub ≡ true) ↔ (
        (mem_str sub.status ("EXPIRED" ∷ "ARCHIVED" ∷ "SUSPENDED" ∷ []) ≡ false)
        × (now < end_of sub))
unfolding check_subscription_temporal_validity
validity_iff now sub = ground arith

-- The one subscription of a tenant is the one that is read.
pub get_subscription_or_none-one :
    (tenant_id : ℕ) (sub : Subscription) (s : Session)
    → select (λ r. r.tenant_id == tenant_id) s.view.subscriptions ≡ sub ∷ []
    → get_subscription_or_none tenant_id s ≡ (ok (some sub), s)
unfolding get_subscription_or_none
get_subscription_or_none-one tenant_id sub s found = rw found refl

-- A subscription that is over: it is expired, archived or suspended, or its end has come.
abbrev pub IsOver : ℕ → Subscription → Type 0
IsOver now sub =
    (sub.status ≡ "EXPIRED")
    ⊎ ((sub.status ≡ "ARCHIVED") ⊎ ((sub.status ≡ "SUSPENDED") ⊎ (end_of sub ≤ now)))

IsOver-invalid :
    (now : ℕ) (sub : Subscription)
    → IsOver now sub
    → check_subscription_temporal_validity now sub ≡ false
unfolding check_subscription_temporal_validity
IsOver-invalid now sub (inl e) = rw e refl
IsOver-invalid now sub (inr (inl e)) = rw e refl
IsOver-invalid now sub (inr (inr (inl e))) = rw e refl
IsOver-invalid now sub (inr (inr (inr late))) = ground arith

-- When the one subscription of a tenant is expired, archived or suspended, or its end has come (the end of
-- its trial while it is on trial, else the end of its period), the tenant has the limit 0 and neither a
-- usage nor a feature is allowed, whatever the plan and the add-ons say.
pub over-blocks :
    (now tenant_id usage : ℕ) (name : String) (sub : Subscription) (s : Session)
    → select (λ r. r.tenant_id == tenant_id) s.view.subscriptions ≡ sub ∷ []
    → IsOver now sub
    → (get_limit now tenant_id name s ≡ (ok (pos 0), s))
      × (evaluate_metric_access now tenant_id name (pos usage) s
          ≡ (ok (deny AccessState.blocked name (some (pos 0)) (some (pos usage))), s))
      × (can_use now tenant_id name s ≡ (ok (deny AccessState.blocked name none none), s))
unfolding get_limit evaluate_metric_access access_at can_use
over-blocks now tenant_id usage name sub s found ended =
    let one = get_subscription_or_none-one tenant_id sub s found in
    let over = IsOver-invalid now sub ended in
    let zero : get_limit now tenant_id name s ≡ (ok (pos 0), s) =
      bind_ok _ _ s s (some sub) one ∙ rw over refl in
    (zero, bind_ok _ _ s s (pos 0) zero, bind_ok _ _ s s (some sub) one ∙ rw over refl)

-- A restricted subscription has no feature beyond the short list.
pub restricted-blocks :
    (now tenant_id : ℕ) (key : String) (sub : Subscription) (s : Session)
    → select (λ r. r.tenant_id == tenant_id) s.view.subscriptions ≡ sub ∷ []
    → is_restricted_away sub key ≡ true
    → can_use now tenant_id key s ≡ (ok (deny AccessState.blocked key none none), s)
unfolding can_use
restricted-blocks now tenant_id key sub s found away =
    let one = get_subscription_or_none-one tenant_id sub s found in
    elim (Bool-cases (check_subscription_temporal_validity now sub)) [
      | inl valid ↦ bind_ok _ _ s s (some sub) one ∙ rw (valid, away) refl
      | inr over ↦ bind_ok _ _ s s (some sub) one ∙ rw over refl
    ]
