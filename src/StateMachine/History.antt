-- ===== src/StateMachine/History.antt =====
-- Chains of transitions that a validator accepts, each from the status that the last one reached.
use multi_agent_ai_system.Prelude.{
  String, eq_iff, mem_str, Bool, true, false, Bool-cases, List, [], ◌∷◌, ◌≡◌, ◌⊎◌, inl, inr, arith,
}
use multi_agent_ai_system.Core.Exceptions.{Result, ok}

abbrev pub Validator : Type 0
Validator = String → String → Result (Unit {0})

abbrev pub Accepted : Validator → String → List String → Type 0
Accepted validate s [] = Unit
Accepted validate s (t ∷ ts) = (validate s t ≡ ok tt) × Accepted validate t ts

-- The status at the end of a chain.
abbrev pub final : String → List String → String
final s [] = s
final s (t ∷ ts) = final t ts

module _ (validate : Validator) (inside : String → Bool) where
  -- A set of statuses that is entered only at one status: a chain that ends in it has passed there.
  pub passes_gate :
      (gate : String)
      → ((s t : String) → validate s t ≡ ok tt → inside t ≡ true → (inside s ≡ true) ⊎ (t ≡ gate))
      → (s : String) (ts : List String) → Accepted validate s ts
      → inside s ≡ false
      → inside (final s ts) ≡ true
      → mem_str gate ts ≡ true
  passes_gate gate enter s [] a out ends = cc
  passes_gate gate enter s (t ∷ ts) a out ends = elim (Bool-cases (inside t)) [
    | inl now ↦ ground (arith, enter s t a.0 now, eq_iff gate t)
    | inr still ↦ ground (arith, passes_gate gate enter t ts a.1 still ends)
  ]

  -- A set of statuses that no transition leaves holds the end of a chain that begins in it.
  pub stays_inside :
      ((s t : String) → validate s t ≡ ok tt → inside s ≡ true → inside t ≡ true)
      → (s : String) (ts : List String) → Accepted validate s ts
      → inside s ≡ true
      → inside (final s ts) ≡ true
  stays_inside keep s [] a h = h
  stays_inside keep s (t ∷ ts) a h = stays_inside keep t ts a.1 (keep s t a.0 h)
