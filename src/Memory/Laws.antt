-- ===== src/Memory/Laws.antt =====
-- What the AI may not store as the truth (app/memory/validators.py).
use multi_agent_ai_system.Prelude.{String, Bool, true, false, ◌≡◌, refl, ◌⊎◌, inl, inr, arith}
use multi_agent_ai_system.Prelude.Int.{ℤ, pos, ◌≤ℤ◌}
use multi_agent_ai_system.Memory.{
  MemoryType, is_ai_source, min_ℤ, bounded, coerced, validate_memory_type_source,
}

abbrev pub is_truth : MemoryType → Bool
is_truth MemoryType.fact = true
is_truth MemoryType.policy = true
is_truth _ = false

bounded_range : (c : ℤ) → (pos 0 ≤ℤ bounded c) × (bounded c ≤ℤ pos 10000)
bounded_range c = ground arith

bounded-least : (c d : ℤ) → pos 0 ≤ℤ d → bounded (min_ℤ c d) ≤ℤ d
bounded-least c d h = ground arith

coerced_not_truth : (t : MemoryType) (c : ℤ) → is_truth (coerced true t c).0 ≡ false
coerced_not_truth MemoryType.fact c = refl
coerced_not_truth MemoryType.decision c = refl
coerced_not_truth MemoryType.preference c = refl
coerced_not_truth MemoryType.policy c = refl
coerced_not_truth MemoryType.goal c = refl
coerced_not_truth MemoryType.constraint c = refl
coerced_not_truth MemoryType.history c = refl
coerced_not_truth MemoryType.insight c = refl

coerced-doubt :
    (t : MemoryType) (c : ℤ) → (is_truth t ≡ false) ⊎ (bounded (coerced true t c).1 ≤ℤ pos 8500)
coerced-doubt MemoryType.fact c = inr (bounded-least c (pos 8500) (omega arith))
coerced-doubt MemoryType.policy c =
    let least : bounded (min_ℤ c (pos 8000)) ≤ℤ pos 8000 =
      bounded-least c (pos 8000) (omega arith) in
    inr (omega arith)
coerced-doubt _ c = inl refl

-- What comes from an AI is stored neither as a fact nor as a policy, with a confidence between 0 and 1,
-- and one of at most 0.85 where the AI offered it as a fact or a policy.
pub validate_memory_type_source-Doubt :
    (t : MemoryType) (source : String) (c : ℤ)
    → is_ai_source source ≡ true
    → (is_truth (validate_memory_type_source t source c).0 ≡ false)
      × (pos 0 ≤ℤ (validate_memory_type_source t source c).1)
      × ((validate_memory_type_source t source c).1 ≤ℤ pos 10000)
      × ((is_truth t ≡ false) ⊎ ((validate_memory_type_source t source c).1 ≤ℤ pos 8500))
unfolding validate_memory_type_source
validate_memory_type_source-Doubt t source c ai = rw ai (
    let range = bounded_range (coerced true t c).1 in
    (coerced_not_truth t c, range.0, range.1, coerced-doubt t c))
