-- ===== src/Tenants/Lifecycle/Laws.antt =====
-- What an accepted transition of a tenant rests on.
use multi_agent_ai_system.Prelude.{
  String, str_eq, eq_iff, mem_str, true, false, not, ◌&&◌, Bool-cases, Option, none, some,
  Option-cases, [], ◌∷◌, ◌≡◌, refl, ◌⊎◌, inl, inr, arith, subst,
}
use multi_agent_ai_system.Prelude.Int.{ℤ, ltb_ℤ}
use multi_agent_ai_system.Core.Exceptions.{ok}
use multi_agent_ai_system.Billing.Models.{Subscription}
use multi_agent_ai_system.Platform.Context.{AuthenticatedActor}
use multi_agent_ai_system.StateMachine.Table.{parse, contains}
use multi_agent_ai_system.Tenants.Lifecycle.{
  TenantLifecycleState, value, members, allowed_tenant_lifecycle_transitions, needs_recovery,
  is_platform_owner, is_active, has_verified_payment, subscription_gate, activation_gate,
  validate_states, validate_tenant_lifecycle_transition,
}

-- What makes a tenant ready for work: its onboarding is READY, its subscription is on trial or
-- active, and a price above zero has a verified payment.
pub record IsActivatable (subscription : Option Subscription) (readiness : Option String)
    : Type 0 where
  pub sub : Subscription
  pub subscribed : subscription ≡ some sub
  pub is_ready : readiness ≡ some "READY"
  pub in_force : mem_str sub.status ("TRIALING" ∷ "ACTIVE" ∷ []) ≡ true
  pub is_covered : (ltb_ℤ (ℤ.pos 0) sub.amount && not (has_verified_payment sub)) ≡ false

through_gate :
    (sub : Option Subscription) (r : Option String)
    → activation_gate sub r ≡ ok tt
    → IsActivatable sub r
unfolding activation_gate subscription_gate
through_gate sub none h = cc
through_gate none (some r) h = ground arith
through_gate (some sub) (some r) h = elim (Bool-cases (str_eq r "READY")) [
  | inr other ↦ ground arith
  | inl same ↦ elim (Bool-cases (mem_str sub.status ("TRIALING" ∷ "ACTIVE" ∷ []))) [
    | inr other ↦ ground arith
    | inl good ↦ elim (Bool-cases (ltb_ℤ (ℤ.pos 0) sub.amount && not (has_verified_payment sub))) [
      | inl unpaid ↦ ground arith
      | inr covered ↦ record {
        sub = sub;
        subscribed = refl;
        is_ready = rw ((eq_iff r "READY").0 same) refl;
        in_force = good;
        is_covered = covered;
      }
    ]
  ]
]

module _ (sub : Option Subscription) (r : Option String) (actor : Option AuthenticatedActor) where
  -- The checks that an accepted pair of states has passed.
  abbrev pub Checked : TenantLifecycleState → TenantLifecycleState → Type 0
  Checked a b =
      ((needs_recovery a ≡ false) ⊎ (is_platform_owner actor ≡ true))
      × (contains value b (allowed_tenant_lifecycle_transitions a) ≡ true)
      × ((is_active b ≡ false) ⊎ (activation_gate sub r ≡ ok tt))

  checked : (a b : TenantLifecycleState) → validate_states a b sub r actor ≡ ok tt → Checked a b
  unfolding validate_states
  checked a b h = (ground arith, ground arith, ground arith)

  pub accepted-Checked :
      (s t : String)
      → validate_tenant_lifecycle_transition s t sub r actor ≡ ok tt
      → (s ≡ t)
        ⊎ ((a b : TenantLifecycleState) × (parse value members s ≡ some a)
            × (parse value members t ≡ some b)
            × Checked a b)
  unfolding validate_tenant_lifecycle_transition
  accepted-Checked s t h = elim (Bool-cases (str_eq s t)) [
    | inl same ↦ inl ((eq_iff s t).0 same)
    | inr differ ↦ elim (Option-cases (parse value members s)) [
      | inl unknown ↦ ground arith
      | inr (a, ea) ↦ elim (Option-cases (parse value members t)) [
        | inl unknown ↦ ground arith
        | inr (b, eb) ↦ inr (a, b, ea, eb, checked a b (ground arith))
      ]
    ]
  ]

-- A transition to ACTIVE that is accepted changes nothing, or passes the gate.
pub accepted-gate :
    (s : String) (sub : Option Subscription) (r : Option String) (actor : Option AuthenticatedActor)
    → validate_tenant_lifecycle_transition s "ACTIVE" sub r actor ≡ ok tt
    → (s ≡ "ACTIVE") ⊎ IsActivatable sub r
accepted-gate s sub r actor h = elim (accepted-Checked sub r actor s "ACTIVE" h) [
  | inl same ↦ inl same
  | inr (a, b, ea, eb, c) ↦
      let e : b ≡ TenantLifecycleState.active = cc in
      elim c.2 [
        | inl other ↦
            let f : is_active TenantLifecycleState.active ≡ false =
              subst (λ x. is_active x ≡ false) e other in
            cc
        | inr gate ↦ inr (through_gate sub r gate)
      ]
]

recovers :
    (s : String) (a : TenantLifecycleState)
    → parse value members s ≡ some a
    → mem_str s ("ERROR" ∷ "BLOCKED" ∷ []) ≡ true
    → needs_recovery a ≡ true
recovers s a e h = elim (Bool-cases (str_eq s "ERROR")) [
  | inl err_state ↦
      let f : parse value members "ERROR" ≡ some a =
        subst (λ x. parse value members x ≡ some a) ((eq_iff s "ERROR").0 err_state) e in
      let g : a ≡ TenantLifecycleState.error = cc in rw g refl
  | inr other ↦
      let b : str_eq s "BLOCKED" ≡ true = ground arith in
      let f : parse value members "BLOCKED" ≡ some a =
        subst (λ x. parse value members x ≡ some a) ((eq_iff s "BLOCKED").0 b) e in
      let g : a ≡ TenantLifecycleState.blocked = cc in rw g refl
]

-- A tenant in ERROR or BLOCKED is moved to another state by a platform owner only, and to one of the
-- states that the table allows.
pub recovery_by_owner :
    (s t : String) (sub : Option Subscription) (r : Option String)
    (actor : Option AuthenticatedActor)
    → mem_str s ("ERROR" ∷ "BLOCKED" ∷ []) ≡ true
    → str_eq s t ≡ false
    → validate_tenant_lifecycle_transition s t sub r actor ≡ ok tt
    → (is_platform_owner actor ≡ true)
      × ((a b : TenantLifecycleState) × (parse value members s ≡ some a)
          × (parse value members t ≡ some b)
          × (contains value b (allowed_tenant_lifecycle_transitions a) ≡ true))
recovery_by_owner s t sub r actor h differ e = elim (accepted-Checked sub r actor s t e) [
  | inl same ↦ let f : str_eq s t ≡ true = (eq_iff s t).1 same in cc
  | inr (a, b, ea, eb, c) ↦
      let k = recovers s a ea h in
      (elim c.0 [ inl mild ↦ cc | inr owner ↦ owner ], (a, b, ea, eb, c.1))
]
