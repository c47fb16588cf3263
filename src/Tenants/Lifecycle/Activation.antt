-- ===== src/Tenants/Lifecycle/Activation.antt =====
-- The activation gate of `ClientLifecycleManager.transition_state`.
use multi_agent_ai_system.Prelude.{
  ℕ, ◌==◌, String, true, false, Option, some, List, [], ◌∷◌, select, ◌≡◌, refl, sym, ap, ◌∙◌, subst,
  mem_str, not, ◌&&◌, ◌⊎◌, inl, inr,
}
use multi_agent_ai_system.Prelude.Int.{ℤ, ltb_ℤ}
use multi_agent_ai_system.Core.Exceptions.{Result, ok, err, Action, scalar_one_or_none, ◌>>◌}
use multi_agent_ai_system.Core.Triples.{
  Holds, Triple, Found, bind_rule, consequence, lift_rule, query_rule, or_raise_rule,
}
use multi_agent_ai_system.Billing.Models.{Subscription}
use multi_agent_ai_system.Billing.Subscription.Lookup.{get_subscription_or_none}
use multi_agent_ai_system.Platform.Context.{AuthenticatedActor}
use multi_agent_ai_system.Platform.Store.{Store, Tenant, in_billing}
use multi_agent_ai_system.Tenants.Lifecycle.{
  validate_tenant_lifecycle_transition, has_verified_payment,
}
use multi_agent_ai_system.Tenants.Lifecycle.Laws.{IsActivatable, accepted-gate}
use multi_agent_ai_system.Tenants.Lifecycle.Manager.{
  state_of, tenant_rows, get_tenant, active_context, gate_context, apply_transition,
  transition_state,
}

abbrev Any : Store → Type 0
Any s = Unit

module _ (actor : Option AuthenticatedActor) (summary : ℕ → Action Store String) (now : ℕ)
    (tenant_id : ℕ) (s0 : Store) where
  abbrev At : Store → Type 0
  At s = s ≡ s0

  abbrev subscriptions : List Subscription
  subscriptions = select (λ r. r.tenant_id == tenant_id) s0.view.billing.subscriptions

  -- What the gate is given was read from the store.
  pub record IsRead (subscription : Option Subscription) (readiness : Option String) : Type 0 where
    pub found : Found subscriptions subscription
    pub status : String
    pub is_status : readiness ≡ some status
    pub answered : (summary tenant_id s0).0 ≡ ok status

  subscription_outcome :
      (xs : List Subscription) (s : Store)
      → subscriptions ≡ xs
      → At s
      → Holds (λ o s'. At s' × Found subscriptions o) Any (in_billing (scalar_one_or_none xs) s)
  subscription_outcome [] s e h = (h, tt)
  subscription_outcome (x ∷ []) s e h = (h, e)
  subscription_outcome (x ∷ y ∷ xs) s e h = tt

  framed :
      (o : Option Subscription) (out : Result String × Store)
      → (summary tenant_id s0).0 ≡ out.0
      → Found subscriptions o
      → Holds (λ r s. Found subscriptions o × ((summary tenant_id s0).0 ≡ ok r)) Any out
  framed o (ok r, s) e f = (f, e)
  framed o (err x, s) e f = tt

  context_rule : Triple At (active_context actor summary now tenant_id) (λ c s. IsRead c.0 c.1) Any
  unfolding active_context get_subscription_or_none
  context_rule =
      bind_rule At (λ o s. At s × Found subscriptions o) (λ c s. IsRead c.0 c.1) Any _ _
        (λ s h.
          subscription_outcome (select (λ r. r.tenant_id == tenant_id) s.view.billing.subscriptions)
            s (rw h refl) h)
        λ o.
          bind_rule (λ s. At s × Found subscriptions o)
            (λ r s. Found subscriptions o × ((summary tenant_id s0).0 ≡ ok r))
            (λ c s. IsRead c.0 c.1) Any _ _
            (λ s p.
              framed o (summary tenant_id s) (ap (λ x. (summary tenant_id x).0) (sym p.0)) p.1)
            λ r s q. record { found = q.0; status = r; is_status = refl; answered = q.1 }

  -- The subscription and the onboarding of a tenant that may become ACTIVE.
  pub record IsEntitled : Type 0 where
    pub sub : Subscription
    pub only : subscriptions ≡ sub ∷ []
    pub is_ready : (summary tenant_id s0).0 ≡ ok "READY"
    pub in_force : mem_str sub.status ("TRIALING" ∷ "ACTIVE" ∷ []) ≡ true
    pub is_covered : (ltb_ℤ (ℤ.pos 0) sub.amount && not (has_verified_payment sub)) ≡ false

  entitled :
      (o : Option Subscription) (r : Option String) → IsRead o r → IsActivatable o r → IsEntitled
  entitled o r read a = record {
    sub = a.sub;
    only = subst (Found subscriptions) a.subscribed read.found;
    is_ready = let e : read.status ≡ "READY" = cc in read.answered ∙ ap ok e;
    in_force = a.in_force;
    is_covered = a.is_covered;
  }

  abbrev Entered : Type 0
  Entered =
      ((row : Tenant) × (tenant_rows tenant_id s0 ≡ row ∷ []) × (state_of row ≡ "ACTIVE"))
      ⊎ IsEntitled

  fixed : {A : Type 0} (o : Result A × Store) → Entered → Holds (λ _ _. Entered) Any o
  fixed (ok a, s) c = c
  fixed (err e, s) c = tt

  accepted :
      (row : Tenant) (c : Option Subscription × Option String)
      → tenant_rows tenant_id s0 ≡ row ∷ []
      → IsRead c.0 c.1
      → validate_tenant_lifecycle_transition (state_of row) "ACTIVE" c.0 c.1 actor ≡ ok tt
      → Entered
  accepted row c rows read e = elim (accepted-gate (state_of row) c.0 c.1 actor e) [
    | inl same ↦ inl (row, rows, same)
    | inr a ↦ inr (entitled c.0 c.1 read a)
  ]

  tenant_rule :
      Triple At (get_tenant tenant_id) (λ row s. At s × (tenant_rows tenant_id s ≡ row ∷ [])) At
  tenant_rule =
      bind_rule At (λ o s. At s × Found (tenant_rows tenant_id s) o) _ At _ _
        (query_rule At (tenant_rows tenant_id)) λ o. or_raise_rule At (tenant_rows tenant_id) o _

  transition_rule :
      (reason who : Option String)
      → Triple At
          (transition_state actor summary now tenant_id "ACTIVE" reason who)
          (λ _ _. Entered)
          Any
  unfolding transition_state gate_context ◌>>◌
  transition_rule reason who =
      bind_rule At (λ row s. At s × (tenant_rows tenant_id s ≡ row ∷ [])) (λ _ _. Entered) Any _ _
        (consequence At At (λ row s. At s × (tenant_rows tenant_id s ≡ row ∷ []))
          (λ row s. At s × (tenant_rows tenant_id s ≡ row ∷ [])) At Any (get_tenant tenant_id)
          (λ s p. p) (λ row s p. p) (λ s p. tt) tenant_rule)
        λ row s p.
          let rows : tenant_rows tenant_id s0 ≡ row ∷ [] =
            subst (λ x. tenant_rows tenant_id x ≡ row ∷ []) p.0 p.1 in
          bind_rule At (λ c s. IsRead c.0 c.1) (λ _ _. Entered) Any _ _ context_rule
            (λ c s read.
              bind_rule Any
                (λ u s.
                  Unit
                  × (validate_tenant_lifecycle_transition (state_of row) "ACTIVE" c.0 c.1 actor
                      ≡ ok u))
                (λ _ _. Entered) Any _ _ (lift_rule Any _)
                (λ u s q.
                  fixed (apply_transition actor summary now tenant_id "ACTIVE" reason who row s)
                    (accepted row c rows read q.1))
                s tt)
            s p.0

-- A tenant that `transition_state` moves to ACTIVE was ACTIVE before, or its onboarding is READY, it
-- has one subscription, which is on trial or active, and a price above zero has a verified payment.
pub transition_state-IsEntitled :
    (actor : Option AuthenticatedActor) (summary : ℕ → Action Store String) (now tenant_id : ℕ)
    (reason who : Option String) (s s' : Store) (t : Tenant)
    → transition_state actor summary now tenant_id "ACTIVE" reason who s ≡ (ok t, s')
    → ((row : Tenant) × (tenant_rows tenant_id s ≡ row ∷ []) × (state_of row ≡ "ACTIVE"))
      ⊎ IsEntitled actor summary now tenant_id s
transition_state-IsEntitled actor summary now tenant_id reason who s s' t e =
    subst (Holds (λ _ _. Entered actor summary now tenant_id s) Any) e
      (transition_rule actor summary now tenant_id s reason who s refl)
