-- ===== src/Memory.antt =====
-- app/memory/validators.py: `MemoryValidator`. A confidence counts ten-thousandths: the method rounds to
-- them, and since rounding keeps the order it may stand before the bounds.
pub mod Laws
mod Tests
use text.Mathlib.Text.{find?, starts_with}
use multi_agent_ai_system.Prelude.{
  String, Bool, true, false, ◌&&◌, ◌||◌, Option, none, some, if◌then◌else◌,
}
use multi_agent_ai_system.Prelude.Int.{ℤ, pos, leb_ℤ}
use multi_agent_ai_system.Prelude.Text.{lower}

pub data MemoryType : Type 0 where
  fact decision preference policy goal constraint history insight : MemoryType

abbrev contains : String → String → Bool
contains text word = elim (find? text word) [ some _ ↦ true | none ↦ false ]

unfoldable pub is_ai_source : String → Bool
is_ai_source source =
    starts_with source "ai" || contains (lower source) "agent" || contains (lower source) "gemini"

abbrev pub min_ℤ : ℤ → ℤ → ℤ
min_ℤ a b = if leb_ℤ a b then a else b

abbrev pub max_ℤ : ℤ → ℤ → ℤ
max_ℤ a b = if leb_ℤ a b then b else a

abbrev pub bounded : ℤ → ℤ
bounded confidence = max_ℤ (pos 0) (min_ℤ (pos 10000) confidence)

-- What becomes of a memory of the AI: a fact or a policy is an insight of limited confidence.
abbrev pub coerced : Bool → MemoryType → ℤ → MemoryType × ℤ
coerced true MemoryType.fact confidence = (MemoryType.insight, min_ℤ confidence (pos 8500))
coerced true MemoryType.policy confidence = (MemoryType.insight, min_ℤ confidence (pos 8000))
coerced _ memory_type confidence = (memory_type, confidence)

unfoldable pub validate_memory_type_source : MemoryType → String → ℤ → MemoryType × ℤ
unfolding is_ai_source
validate_memory_type_source memory_type source confidence =
    let (kind, c) = coerced (is_ai_source source) memory_type confidence in (kind, bounded c)

abbrev pub is_official : MemoryType → Bool
is_official MemoryType.policy = true
is_official MemoryType.decision = true
is_official MemoryType.constraint = true
is_official _ = false

-- Whether a change needs the approval of the owner; the scope and the key play no part.
unfoldable pub requires_approval_for_change : MemoryType → String → Bool
requires_approval_for_change memory_type source =
    is_official memory_type && (starts_with source "ai" || contains (lower source) "agent")
