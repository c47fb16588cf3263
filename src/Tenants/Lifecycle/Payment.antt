-- ===== src/Tenants/Lifecycle/Payment.antt =====
-- The sequences of `ClientLifecycleManager` stop before PAID until billing shows the payment.
use multi_agent_ai_system.Prelude.{
  ℕ, ◌==◌, String, str_eq, mem_str, Bool, true, false, not, ◌&&◌, ◌||◌, Bool-cases, Option, none,
  some, List, [], ◌∷◌, select, ◌≡◌, refl, ap, sym, subst, ◌⊎◌, inl, inr, arith, if◌then◌else◌,
}
use multi_agent_ai_system.Core.Exceptions.{
  Result, ok, err, Action, pure, scalar_one_or_none, ◌>>=◌, ◌>>◌, bind_ok,
}
use multi_agent_ai_system.Core.Triples.{
  Holds, Triple, Found, bind_rule, bind-Keeps, case_rule, consequence, query-Keeps, or_raise-Keeps,
  lift-Keeps, either_rule,
}
use multi_agent_ai_system.Billing.Models.{Subscription}
use multi_agent_ai_system.Billing.Session.{Database}
use multi_agent_ai_system.Billing.Subscription.Lookup.{get_subscription_or_none}
use multi_agent_ai_system.Platform.Context.{AuthenticatedActor}
use multi_agent_ai_system.Platform.Store.{Store, Tenant, in_billing}
use multi_agent_ai_system.StateMachine.Table.{every}
use multi_agent_ai_system.StateMachine.Dictionary.{every-mem_str}
use multi_agent_ai_system.Tenants.Lifecycle.Manager.{
  state_of, or_text, tenant_rows, get_tenant, has_evidence, is_payment_verified, remaining, pays,
  onboarding_sequence, ready_sequence, past_onboarding, past_ready, step_reason, gate_context,
  apply_transition, transition_state, advance_step, advance_along, advance, advance_to_onboarding,
  advance_to_ready,
}

abbrev unpaid_states : List String
unpaid_states = "PROSPECT" ∷ "LEAD" ∷ "QUALIFIED" ∷ "PROPOSAL" ∷ "WAITING_PAYMENT" ∷ []

abbrev pub is_unpaid : Tenant → Bool
is_unpaid t = mem_str (state_of t) unpaid_states

-- Billing shows the payment of the tenant's one subscription.
pub record Paid (tenant_id : ℕ) (d : Database) : Type 0 where
  pub sub : Subscription
  pub only : select (λ r. r.tenant_id == tenant_id) d.subscriptions ≡ sub ∷ []
  pub evidence : has_evidence tenant_id d (some sub) ≡ true

Any : Store → Type 0
Any s = Unit

certain :
    {A : Type 0} (C : Type 0) (D : A → Type 0) (o : Result A × Store)
    → C
    → Holds (λ a s. C ⊎ D a) (λ s. Unit) o
certain C D (ok a, s) c = inl c
certain C D (err e, s) c = tt

module _ (tenant_id : ℕ) (d : Database) where
  -- The rows of billing are these.
  abbrev Same : Store → Type 0
  Same s = s.view.billing ≡ d

  abbrev Verified : Bool → Type 0
  Verified v = (v ≡ false) ⊎ Paid tenant_id d

  verified_outcome :
      (xs : List Subscription) (s : Store)
      → select (λ r. r.tenant_id == tenant_id) d.subscriptions ≡ xs
      → Same s
      → Holds
          (λ o s'. Same s' × Found (select (λ r. r.tenant_id == tenant_id) d.subscriptions) o)
          (λ _. Unit)
          (in_billing (scalar_one_or_none xs) s)
  verified_outcome [] s e h = (h, tt)
  verified_outcome (x ∷ []) s e h = (h, e)
  verified_outcome (x ∷ y ∷ xs) s e h = tt

  evidence-Found :
      (o : Option Subscription)
      → Found (select (λ r. r.tenant_id == tenant_id) d.subscriptions) o
      → Verified (has_evidence tenant_id d o)
  unfolding has_evidence
  evidence-Found none f = inl refl
  evidence-Found (some sub) f = elim (Bool-cases (has_evidence tenant_id d (some sub))) [
    | inl e ↦ inr (record { sub = sub; only = f; evidence = e })
    | inr e ↦ inl e
  ]

  Verified-rule :
      Triple Same (is_payment_verified tenant_id) (λ v s. Same s × Verified v) (λ _. Unit)
  unfolding is_payment_verified get_subscription_or_none
  Verified-rule =
      bind_rule Same
        (λ o s. Same s × Found (select (λ r. r.tenant_id == tenant_id) d.subscriptions) o)
        (λ v s. Same s × Verified v) (λ _. Unit) _ _
        (λ s h.
          verified_outcome (select (λ r. r.tenant_id == tenant_id) s.view.billing.subscriptions) s
            (rw h refl) h)
        λ o s p.
          (p.0, subst (λ b. Verified (has_evidence tenant_id b o)) (sym p.0) (evidence-Found o p.1))

  tenant_rule : Triple Same (get_tenant tenant_id) (λ _. Same) Same
  tenant_rule =
      bind-Keeps Same _ _ (query-Keeps Same (tenant_rows tenant_id)) λ o. or_raise-Keeps Same o _

  module _ (actor : Option AuthenticatedActor) (summary : ℕ → Action Store String) (now : ℕ) where
    applied :
        (to : String) (reason who : Option String) (tenant : Tenant)
        → Triple Same
            (apply_transition actor summary now tenant_id to reason who tenant)
            (λ t s. Same s × (t.lifecycle_state ≡ some to))
            Same
    unfolding apply_transition ◌>>=◌ ◌>>◌
    applied to reason who tenant s h = (h, refl)

    moved_rule :
        (to : String) (reason who : Option String)
        → str_eq to "ACTIVE" ≡ false
        → Triple Same
            (transition_state actor summary now tenant_id to reason who)
            (λ t s. Same s × (t.lifecycle_state ≡ some to))
            Same
    unfolding transition_state gate_context ◌>>◌
    moved_rule to reason who e =
        bind_rule Same (λ _. Same) _ Same _ _ tenant_rule
          λ tenant.
            bind_rule Same (λ _. Same) _ Same _ _
              (case_rule Same (λ _. Same) Same (str_eq to "ACTIVE") _ _ (λ f. cc) (λ f s h. h))
              λ c.
                bind_rule Same (λ _. Same) _ Same _ _ (lift-Keeps Same _)
                  λ _. applied to reason who tenant

    moved_to :
        (to : String) (reason who : Option String)
        → str_eq to "ACTIVE" ≡ false
        → Triple Same
            (transition_state actor summary now tenant_id to reason who)
            (λ t s. Same s × (t.lifecycle_state ≡ some to))
            (λ _. Unit)
    moved_to to reason who e =
        consequence Same Same (λ t s. Same s × (t.lifecycle_state ≡ some to))
          (λ t s. Same s × (t.lifecycle_state ≡ some to)) Same (λ _. Unit)
          (transition_state actor summary now tenant_id to reason who) (λ s p. p) (λ t s p. p)
          (λ s p. tt) (moved_rule to reason who e)

    abbrev Stopped : Tenant → Type 0
    Stopped t = is_unpaid t ≡ true

    -- From an unpaid state each step of a sequence leads to an unpaid state, or is the step to PAID.
    abbrev linked : String → List String → Bool
    linked from [] = true
    linked from (to ∷ rest) =
        pays from to || (mem_str to unpaid_states && not (str_eq to "ACTIVE") && linked to rest)

    arrived :
        (to : String) (t : Tenant)
        → t.lifecycle_state ≡ some to
        → mem_str to unpaid_states ≡ true
        → Stopped t
    arrived to t e h =
        subst (λ o. mem_str (or_text o "PROSPECT") unpaid_states ≡ true) (sym e)
          (elim (Bool-cases (str_eq to "")) [
            | inl nil ↦ rw nil refl
            | inr some_text ↦ rw some_text h
          ])

    Verified-step :
        (from to : String)
        → Triple Same
            (is_payment_verified tenant_id)
            (λ v s. Same s × ((pays from to ≡ false) ⊎ Verified v))
            (λ _. Unit)
    Verified-step from to =
        consequence Same Same (λ v s. Same s × Verified v)
          (λ v s. Same s × ((pays from to ≡ false) ⊎ Verified v)) (λ _. Unit) (λ _. Unit) _
          (λ s p. p) (λ v s p. (p.0, inr p.1)) (λ s p. p) Verified-rule

    -- One round, after the question for the payment.
    round :
        (step : Action Store Tenant) (tenant : Tenant) (from to : String) (v : Bool)
        → Stopped tenant
        → (pays from to ≡ false) ⊎ Verified v
        → (pays from to ≡ false
            → Triple Same step (λ t s. Paid tenant_id d ⊎ Stopped t) (λ _. Unit))
        → Triple Same
            (if not v then pure tenant else step)
            (λ t s. Paid tenant_id d ⊎ Stopped t)
            (λ _. Unit)
    round step tenant from to false h known go = λ s p. inr h
    round step tenant from to true h (inl e) go = go e
    round step tenant from to true h (inr (inl e)) go = cc
    round step tenant from to true h (inr (inr shown)) go =
        λ s p. certain (Paid tenant_id d) Stopped (step s) shown

    along :
        (reason : String → String → Option String) (who : Option String) (tenant : Tenant)
        (from : String) (rest : List String)
        → Stopped tenant
        → linked from rest ≡ true
        → Triple Same
            (advance_along actor summary now tenant_id reason who tenant from rest)
            (λ t s. Paid tenant_id d ⊎ Stopped t)
            (λ _. Unit)
    unfolding advance_along advance_step
    along reason who tenant from [] h l = λ s p. inr h
    along reason who tenant from (to ∷ rest) h l =
        bind_rule Same (λ v s. Same s × ((pays from to ≡ false) ⊎ Verified v)) _ (λ _. Unit) _ _
          (case_rule Same (λ v s. Same s × ((pays from to ≡ false) ⊎ Verified v)) (λ _. Unit)
            (pays from to) _ _ (λ e. Verified-step from to) (λ e s p. (p, inl e)))
          λ v s p.
            round _ tenant from to v h p.1
              (λ e.
                bind_rule Same (λ t s. Same s × (t.lifecycle_state ≡ some to)) _ (λ _. Unit) _ _
                  (moved_to to (reason from to) who (ground arith))
                  λ t s q.
                    along reason who t to rest (arrived to t q.1 (ground arith)) (ground arith) s
                      q.0)
              s p.0

    -- Every unpaid state stands in the sequence, and what is left of it there is linked.
    abbrev follows : List String → String → Bool
    follows sequence x = elim (remaining x sequence) [ none ↦ false | some rest ↦ linked x rest ]

    found_row :
        (row : Tenant) (s : Store)
        → tenant_rows tenant_id s ≡ row ∷ []
        → get_tenant tenant_id s ≡ (ok row, s)
    found_row row s rows =
        bind_ok (λ s. scalar_one_or_none (tenant_rows tenant_id s) s) _ s s (some row)
          (ap (λ l. scalar_one_or_none l s) rows)

    chosen :
        (reason who : Option String) (goal : String) (row : Tenant) (o : Option (List String))
        (why : String → String → Option String)
        → is_unpaid row ≡ true
        → elim o [ none ↦ false | some rest ↦ linked (state_of row) rest ] ≡ true
        → Triple Same
            (elim o [
              | none ↦ transition_state actor summary now tenant_id goal reason who
              | some rest ↦
                  advance_along actor summary now tenant_id why who row (state_of row) rest
            ])
            (λ t s. Paid tenant_id d ⊎ Stopped t)
            (λ _. Unit)
    chosen reason who goal row none why h k = cc
    chosen reason who goal row (some rest) why h k = along why who row (state_of row) rest h k

    advance_rule :
        (goes_on sequence : List String) (goal label : String) (reason who : Option String)
        (row : Tenant) (s : Store)
        → every (follows sequence) unpaid_states ≡ true
        → tenant_rows tenant_id s ≡ row ∷ []
        → is_unpaid row ≡ true
        → Same s
        → Holds
            (λ t s. Paid tenant_id d ⊎ Stopped t)
            (λ _. Unit)
            (advance actor summary now goes_on sequence goal label tenant_id reason who s)
    unfolding advance
    advance_rule goes_on sequence goal label reason who row s f rows h p =
        let here : get_tenant tenant_id s ≡ (ok row, s) = found_row row s rows in
        let k = every-mem_str (follows sequence) unpaid_states (state_of row) h f in
        subst (Holds (λ t s. Paid tenant_id d ⊎ Stopped t) (λ _. Unit))
          (sym (bind_ok (get_tenant tenant_id) _ s s row here))
          (either_rule Same (λ t s. Paid tenant_id d ⊎ Stopped t) (λ _. Unit)
            (mem_str (state_of row) goes_on) _ _ (λ s p. inr h)
            (chosen reason who goal row (remaining (state_of row) sequence)
              (step_reason label reason) h k)
            s p)

module _ (actor : Option AuthenticatedActor) (summary : ℕ → Action Store String) (now : ℕ)
    (tenant_id : ℕ) (reason who : Option String) (row t : Tenant) (s s' : Store) where
  -- A tenant in a state before the payment that `advance_to_onboarding` moves is still in such a state,
  -- unless billing shows the payment of its one subscription.
  pub advance_to_onboarding-Paid :
      tenant_rows tenant_id s ≡ row ∷ []
      → is_unpaid row ≡ true
      → advance_to_onboarding actor summary now tenant_id reason who s ≡ (ok t, s')
      → Paid tenant_id s.view.billing ⊎ (is_unpaid t ≡ true)
  unfolding advance_to_onboarding
  advance_to_onboarding-Paid rows h e =
      subst (Holds (λ x _. Paid tenant_id s.view.billing ⊎ (is_unpaid x ≡ true)) (λ _. Unit)) e (
        advance_rule tenant_id s.view.billing actor summary now past_onboarding onboarding_sequence
          "ONBOARDING" "Sequential pipeline" reason who row s refl rows h refl)

  -- The same of `advance_to_ready`.
  pub advance_to_ready-Paid :
      tenant_rows tenant_id s ≡ row ∷ []
      → is_unpaid row ≡ true
      → advance_to_ready actor summary now tenant_id reason who s ≡ (ok t, s')
      → Paid tenant_id s.view.billing ⊎ (is_unpaid t ≡ true)
  unfolding advance_to_ready
  advance_to_ready-Paid rows h e =
      subst (Holds (λ x _. Paid tenant_id s.view.billing ⊎ (is_unpaid x ≡ true)) (λ _. Unit)) e (
        advance_rule tenant_id s.view.billing actor summary now past_ready ready_sequence "READY"
          "Sequential onboarding" reason who row s refl rows h refl)
