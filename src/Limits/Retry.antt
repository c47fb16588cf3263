-- ===== src/Limits/Retry.antt =====
-- app/integrations/retry.py: `execute_with_retry`. The function is given by the outcome of each of its
-- attempts; a delay counts microseconds and is multiplied by a whole factor. `retryable` says whether
-- the text of an exception names a timeout, a rate limit, a 502, a 503 or a reset connection.
pub mod Laws
use multi_agent_ai_system.Prelude.{
  ℕ, zero, suc, ◌*◌, leb, Bool, true, false, not, ◌||◌, Option, none, some, List, [], ◌∷◌, ◌++◌,
  if◌then◌else◌,
}

pub data Failure : Type 0 where
  permanent : Failure
  transient : Failure
  other : Bool → Failure

pub data Outcome (A : Type 0) : Type 0 where
  returned : A → Outcome A
  raised : Failure → Outcome A

-- `is_transient` of an exception that is not permanent
abbrev pub is_transient : Failure → Bool
is_transient permanent = false
is_transient transient = true
is_transient (other retryable) = retryable

-- What is raised at the end: an integration error as it is, another one as a transient error.
abbrev pub final_failure : Failure → Failure
final_failure permanent = permanent
final_failure transient = transient
final_failure (other _) = transient

-- The end of the call: its outcome, the number of attempts, and the delays slept in their order.
pub record Trial (A : Type 0) : Type 0 where
  pub outcome : Outcome A
  pub attempts : ℕ
  pub slept : List ℕ

-- Whether a failure ends the call. A permanent one is raised before the number of attempts is
-- compared.
abbrev pub ends : ℕ → ℕ → Failure → Bool
ends max_retries attempt permanent = true
ends max_retries attempt transient = leb max_retries attempt
ends max_retries attempt (other retryable) = not retryable || leb max_retries attempt

module _ {A : Type 0} (func : ℕ → Outcome A) (max_retries backoff_factor : ℕ) where
  -- The loop with fuel; `attempt` counts the attempt that is made now.
  unfoldable pub attempt_from : ℕ → ℕ → ℕ → List ℕ → Option (Trial A)
  attempt_from zero attempt delay slept = none
  attempt_from (suc fuel) attempt delay slept =
      let next = attempt_from fuel (suc attempt) (delay * backoff_factor) (slept ++ delay ∷ []) in
      elim (func attempt) [
        | returned a ↦ some (record { outcome = returned a; attempts = attempt; slept = slept })
        | raised e ↦
            if ends max_retries attempt e
            then some
                (record { outcome = raised (final_failure e); attempts = attempt; slept = slept })
            else next
      ]

  unfoldable pub execute_with_retry : ℕ → Option (Trial A)
  unfolding attempt_from
  execute_with_retry initial_delay = attempt_from (suc max_retries) 1 initial_delay []
