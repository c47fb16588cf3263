-- ===== src/Limits/RateLimiter.antt =====
-- app/core/ai_gateway/rate_limiter.py: `RateLimiter`. A time counts microseconds; a tenant that is no
-- key yet has no timestamps.
pub mod Window
use multi_agent_ai_system.Prelude.{
  ℕ, ◌+◌, ◌==◌, ltb, leb, Bool, List, [], ◌∷◌, ◌++◌, length, select, if◌then◌else◌,
}
use multi_agent_ai_system.Core.Exceptions.{Exception, Result, ok, err, Action}

pub record RateLimiter : Type 0 where
  pub requests_per_minute : ℕ
  pub tenant_requests : ℕ → List ℕ

-- `t > now - 60.0`
abbrev pub in_window : ℕ → ℕ → Bool
in_window now t = ltb now (t + 60000000)

abbrev pub with_requests : RateLimiter → ℕ → List ℕ → RateLimiter
with_requests limiter tenant_id timestamps = record limiter {
  tenant_requests = λ t. if t == tenant_id then timestamps else limiter.tenant_requests t;
}

unfoldable pub check_rate_limit : ℕ → ℕ → Action RateLimiter (Unit {0})
check_rate_limit now tenant_id limiter =
    let kept = select (in_window now) (limiter.tenant_requests tenant_id) in
    if leb limiter.requests_per_minute (length kept)
    then (err Exception.ai_rate_limit_error, with_requests limiter tenant_id kept)
    else (ok tt, with_requests limiter tenant_id (kept ++ now ∷ []))
