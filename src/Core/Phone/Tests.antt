-- ===== src/Core/Phone/Tests.antt =====
-- A number at which the theorem is tried.
use multi_agent_ai_system.Prelude.{some, ◌≡◌, refl}
use multi_agent_ai_system.Core.Exceptions.{ok, err}
use multi_agent_ai_system.Core.Phone.{normalize_phone_number, phone_normalization_error}
use multi_agent_ai_system.Core.Phone.Canonical.{IsCanonical, normalize_phone_number-idempotent}

normalize_phone_number-idempotent_example :
    IsCanonical "628123456789"
    × (normalize_phone_number "62" (some "628123456789") ≡ ok "628123456789")
unfolding normalize_phone_number
normalize_phone_number-idempotent_example =
    normalize_phone_number-idempotent "62" (some " 0812-3456 789 ") "628123456789" (refl, refl) refl

local : normalize_phone_number "62" (some " 0812-3456 789 ") ≡ ok "628123456789"
unfolding normalize_phone_number
local = refl

short : normalize_phone_number "62" (some "0812-345") ≡ err phone_normalization_error
unfolding normalize_phone_number
short = refl
