-- ===== src/Limits/Tests.antt =====
-- Limits at concrete calls.
use multi_agent_ai_system.Prelude.{
  ℕ, ◌≤◌, String, Bool, true, false, some, List, [], ◌∷◌, length, select, ◌==◌, arith, ◌≡◌, refl,
}
use multi_agent_ai_system.Limits.RateLimiter.{in_window, check_rate_limit}
use multi_agent_ai_system.Limits.RateLimiter.Window.{Call, times, run, new_limiter, run-bounded}
use multi_agent_ai_system.Limits.Retry.{
  Outcome, returned, raised, Failure, attempt_from, execute_with_retry,
}
use multi_agent_ai_system.Limits.Retry.Laws.{IsFinished, execute_with_retry-IsFinished}

-- Three calls in a second and one a minute later, where two are allowed in a minute.
abbrev calls : List Call
calls =
    record { now = 100; tenant_id = 7 }
    ∷ record { now = 200; tenant_id = 7 }
    ∷ record { now = 300; tenant_id = 7 }
    ∷ record { now = 60000150; tenant_id = 7 }
    ∷ []

third_refused : times 7 (run calls (new_limiter 2) []).1 ≡ 100 ∷ 200 ∷ 60000150 ∷ []
unfolding check_rate_limit
third_refused = refl

run-bounded_example :
    length (select (in_window 60000150) (times 7 (run calls (new_limiter 2) []).1)) ≤ 2
run-bounded_example =
    run-bounded 2 60000150 calls 7
      (omega arith, (omega arith, (omega arith, (omega arith, omega arith))))

-- Two timeouts, then an answer.
abbrev answers : ℕ → Outcome String
answers n = if_third (n == 3)
  where
    if_third : Bool → Outcome String
    if_third true = returned "done"
    if_third false = raised Failure.transient

third_attempt :
    execute_with_retry answers 3 2 500
    ≡ some (record { outcome = returned "done"; attempts = 3; slept = 500 ∷ 1000 ∷ [] })
unfolding execute_with_retry attempt_from
third_attempt = refl

execute_with_retry-IsFinished_example :
    IsFinished answers 3 2 500 (execute_with_retry answers 3 2 500)
execute_with_retry-IsFinished_example = execute_with_retry-IsFinished answers 3 2 500
