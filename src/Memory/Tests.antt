-- ===== src/Memory/Tests.antt =====
-- A policy that an AI offers, at which the theorem is tried.
use multi_agent_ai_system.Prelude.{false, ◌≡◌, refl, ◌⊎◌}
use multi_agent_ai_system.Prelude.Int.{ℤ, pos, ◌≤ℤ◌}
use multi_agent_ai_system.Prelude.Text.{lower}
use multi_agent_ai_system.Memory.{MemoryType, is_ai_source, validate_memory_type_source}
use multi_agent_ai_system.Memory.Laws.{is_truth, validate_memory_type_source-Doubt}

abbrev offered : MemoryType × ℤ
offered = validate_memory_type_source MemoryType.policy "ai_sales" (pos 12000)

validate_memory_type_source-Doubt_example :
    (is_truth offered.0 ≡ false)
    × (pos 0 ≤ℤ offered.1)
    × (offered.1 ≤ℤ pos 10000)
    × ((is_truth MemoryType.policy ≡ false) ⊎ (offered.1 ≤ℤ pos 8500))
unfolding is_ai_source lower
validate_memory_type_source-Doubt_example =
    validate_memory_type_source-Doubt MemoryType.policy "ai_sales" (pos 12000) refl

stored : offered ≡ (MemoryType.insight, pos 8000)
unfolding validate_memory_type_source lower
stored = refl
