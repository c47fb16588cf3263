-- ===== src/Tenants/Readiness/Laws.antt =====
-- What a tenant that is READY has (app/tenants/provisioning/readiness.py).
use mathlib.Core.Bool.{false≢true}
use multi_agent_ai_system.Prelude.{
  ℕ, leb, ◌≤◌, String, str_eq, Bool, true, false, not, ◌&&◌, ◌||◌, List, [], ◌∷◌, All, ◌≡◌, refl,
  arith, Bool-cases, inl, inr, if◌then◌else◌,
}
use multi_agent_ai_system.Tenants.Readiness.{
  OnboardingChecklist, is_valid, is_blocking, keys_of, is_empty, status_of, calculate,
}

three_ways :
    (a b c : Bool)
    → str_eq (if a && b then "READY" else if c then "NEARLY_READY" else "NOT_READY") "READY" ≡ true
    → (a ≡ true) × (b ≡ true)
three_ways true true c h = (refl, refl)
three_ways true false true h = absurd (false≢true h)
three_ways true false false h = absurd (false≢true h)
three_ways false b true h = absurd (false≢true h)
three_ways false b false h = absurd (false≢true h)

status_of-ready :
    (score : ℕ) (blocking : List String)
    → str_eq (status_of score blocking) "READY" ≡ true
    → (9000 ≤ score) × (is_empty blocking ≡ true)
status_of-ready score blocking h =
    let (high, none_left) = three_ways (leb 9000 score) (is_empty blocking) (leb 6000 score) h in
    (ground arith, none_left)

module _ (validation_results : List (String × Bool)) where
  none_blocking :
      (items : List OnboardingChecklist)
      → is_empty (keys_of (is_blocking validation_results) items) ≡ true
      → All (λ i. (not i.required || is_valid validation_results i) ≡ true) items
  none_blocking [] h = tt
  none_blocking (i ∷ items) h = elim (Bool-cases (is_blocking validation_results i)) [
    | inl blocks ↦ absurd (false≢true (rw blocks at h))
    | inr passes ↦ (ground arith, none_blocking items (rw passes at h))
  ]

  -- A tenant that is READY has at least 90 of 100 points, and every item that is required is valid: its
  -- check passed, or it was not checked and is COMPLETED.
  pub calculate-ready :
      (share : ℕ → ℕ → ℕ → ℕ) (items : List OnboardingChecklist)
      → str_eq (calculate share validation_results items).readiness_status "READY" ≡ true
      → (9000 ≤ (calculate share validation_results items).score)
        × All (λ i. (not i.required || is_valid validation_results i) ≡ true) items
  unfolding calculate
  calculate-ready share items h =
      let ready = status_of-ready _ _ h in (ready.0, none_blocking items ready.1)
