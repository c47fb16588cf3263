-- ===== src/Tenants/Lifecycle/History.antt =====
-- What a chain of accepted transitions of a tenant says of its past, where no platform owner intervened
-- (app/tenants/lifecycle.py). The provisioner, which assigns a state without the validator
-- (app/tenants/provisioning/provisioner.py), is not part of such a chain.
use multi_agent_ai_system.Prelude.{
  String, str_eq, eq_iff, mem_str, Bool, true, false, not, ◌||◌, Bool-cases, Option, List, [], ◌∷◌,
  ◌≡◌, refl, ◌⊎◌, inl, inr, arith, subst,
}
use multi_agent_ai_system.Core.Exceptions.{ok}
use multi_agent_ai_system.Billing.Models.{Subscription}
use multi_agent_ai_system.Platform.Context.{AuthenticatedActor}
use multi_agent_ai_system.StateMachine.Table.{contains, every, parse_sound, every-parse}
use multi_agent_ai_system.StateMachine.History.{final}
use multi_agent_ai_system.Tenants.Lifecycle.{
  value, members, allowed_tenant_lifecycle_transitions, needs_recovery, is_platform_owner,
  validate_tenant_lifecycle_transition,
}
use multi_agent_ai_system.Tenants.Lifecycle.Laws.{accepted-Checked}

-- A transition by someone who is no platform owner, whatever the subscription and the readiness are.
pub record Routine (s t : String) : Type 0 where
  pub actor : Option AuthenticatedActor
  pub subscription : Option Subscription
  pub readiness : Option String
  pub no_owner : is_platform_owner actor ≡ false
  pub accepted : validate_tenant_lifecycle_transition s t subscription readiness actor ≡ ok tt

-- A history of such transitions, each from the state that the last one reached.
abbrev pub History : String → List String → Type 0
History s [] = Unit
History s (t ∷ ts) = Routine s t × History t ts

-- The states before the payment, and those that only a platform owner leads out of.
abbrev pub is_before_payment : String → Bool
is_before_payment s =
    mem_str s (
      "PROSPECT" ∷ "LEAD" ∷ "QUALIFIED" ∷ "PROPOSAL" ∷ "WAITING_PAYMENT" ∷ "BLOCKED" ∷ "ERROR" ∷ [])

abbrev pub is_before_testing : String → Bool
is_before_testing s =
    is_before_payment s
    || mem_str s ("PAID" ∷ "CLIENT" ∷ "ONBOARDING" ∷ "CONFIGURING" ∷ "PAUSED" ∷ "STALE" ∷ [])

-- A property of two states that holds at each step of the table that needs no recovery.
abbrev each_routine : (String → String → Bool) → Bool
each_routine p =
    every
      (λ a.
        every
          (λ b.
            needs_recovery a
            || not (contains value b (allowed_tenant_lifecycle_transitions a))
            || p (value a) (value b))
          members)
      members

Routine-step :
    (p : String → String → Bool) (s t : String)
    → each_routine p ≡ true
    → Routine s t
    → (s ≡ t) ⊎ (p s t ≡ true)
Routine-step p s t h r = elim (accepted-Checked r.subscription r.readiness r.actor s t r.accepted) [
  | inl same ↦ inl same
  | inr (a, b, ea, eb, c) ↦
      let no = r.no_owner in
      let step = c.1 in
      let row =
        every-parse value
          (λ x.
            every
              (λ y.
                needs_recovery x
                || not (contains value y (allowed_tenant_lifecycle_transitions x))
                || p (value x) (value y))
              members)
          members s a ea h in
      let entry =
        every-parse value
          (λ y.
            needs_recovery a
            || not (contains value y (allowed_tenant_lifecycle_transitions a))
            || p (value a) (value y))
          members t b eb row in
      let mild : needs_recovery a ≡ false = elim c.0 [ inl e ↦ e | inr o ↦ cc ] in
      let test : p (value a) (value b) ≡ true = ground arith in
      inr (rw (← parse_sound value members s a ea, ← parse_sound value members t b eb) test)
]

-- A set that is entered only at one state has been entered there.
gate_passed :
    (inside : String → Bool) (gate : String)
    → ((s t : String) → Routine s t → inside s ≡ false → inside t ≡ true → t ≡ gate)
    → (s : String) (ts : List String) → History s ts
    → inside s ≡ false
    → inside (final s ts) ≡ true
    → mem_str gate ts ≡ true
gate_passed inside gate enter s [] h out ends = cc
gate_passed inside gate enter s (t ∷ ts) h out ends = elim (Bool-cases (inside t)) [
  | inl now ↦ ground (arith, enter s t h.0 out now, eq_iff gate t)
  | inr still ↦ ground (arith, gate_passed inside gate enter t ts h.1 still ends)
]

entered :
    (before : String → Bool) (gate s t : String)
    → each_routine (λ x y. not (before x) || before y || str_eq y gate) ≡ true
    → Routine s t
    → not (before s) ≡ false
    → not (before t) ≡ true
    → t ≡ gate
entered before gate s t h r out now =
    elim (Routine-step (λ x y. not (before x) || before y || str_eq y gate) s t h r) [
      | inl same ↦
          let e : not (before t) ≡ false = subst (λ x. not (before x) ≡ false) same out in cc
      | inr test ↦ ground (arith, eq_iff t gate)
    ]

-- A chain of transitions that the validator accepts without a platform owner, from a state before the
-- payment to one beyond it, passes through PAID.
pub beyond_payment-paid :
    (s : String) (ts : List String)
    → History s ts
    → is_before_payment s ≡ true
    → is_before_payment (final s ts) ≡ false
    → mem_str "PAID" ts ≡ true
beyond_payment-paid s ts h b e =
    gate_passed (λ x. not (is_before_payment x)) "PAID"
      (λ x y r. entered is_before_payment "PAID" x y refl r) s ts h (rw b refl) (rw e refl)
