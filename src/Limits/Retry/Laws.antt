-- ===== src/Limits/Retry/Laws.antt =====
-- The loop of `execute_with_retry` ends, and what its end says.
use multi_agent_ai_system.Prelude.{
  ℕ, zero, suc, ◌+◌, ◌-◌, ◌*◌, ◌≤◌, leb, Bool, true, false, ◌&&◌, Bool-cases, Option, some, List,
  [], ◌∷◌, ◌++◌, ◌≡◌, refl, sym, ap, inl, inr, arith, if◌then◌else◌,
}
use multi_agent_ai_system.Limits.Retry.{
  Failure, permanent, transient, Outcome, returned, raised, is_transient, final_failure, Trial,
  ends, attempt_from, execute_with_retry,
}

abbrev is_retried : {A : Type 0} → Outcome A → Bool
is_retried (returned a) = false
is_retried (raised e) = is_transient e

module _ {A : Type 0} (func : ℕ → Outcome A) (max_retries backoff_factor initial_delay : ℕ) where
  -- The attempts 1 to n failed, and each for a passing reason.
  abbrev pub all_retried : ℕ → Bool
  all_retried zero = true
  all_retried (suc n) = is_retried (func (suc n)) && all_retried n

  -- The delay after the attempt n + 1, and the delays of the first n.
  abbrev pub delay_at : ℕ → ℕ
  delay_at zero = initial_delay
  delay_at (suc n) = delay_at n * backoff_factor

  abbrev pub delays : ℕ → List ℕ
  delays zero = []
  delays (suc n) = delays n ++ delay_at n ∷ []

  -- What the call ends with, from the outcome of its last attempt.
  abbrev pub settled : Outcome A → Outcome A
  settled (returned a) = returned a
  settled (raised e) = raised (final_failure e)

  -- The call ends after one attempt more than were retried, and at most after the given number of
  -- attempts, or after one; its outcome is that of the last, and it slept after each of the others, for
  -- the delay multiplied by the factor each time.
  pub record IsFinished (o : Option (Trial A)) : Type 0 where
    pub trial : Trial A
    pub is_end : o ≡ some trial
    pub retries : ℕ
    pub counted : trial.attempts ≡ suc retries
    pub bounded : retries ≤ max_retries - 1
    pub all_passing : all_retried retries ≡ true
    pub last : trial.outcome ≡ settled (func (suc retries))
    pub waits : trial.slept ≡ delays retries

  goes_on :
      (m n : ℕ) (e : Failure)
      → ends m (suc n) e ≡ false
      → (is_transient e ≡ true) × (leb m (suc n) ≡ false)
  goes_on m n permanent h = cc
  goes_on m n transient h = (refl, h)
  goes_on m n (Failure.other r) h = ground arith

  ended :
      (n : ℕ) (o : Outcome A)
      → func (suc n) ≡ o
      → n ≤ max_retries - 1
      → all_retried n ≡ true
      → IsFinished (some (record { outcome = settled o; attempts = suc n; slept = delays n }))
  ended n o e b r = record {
    trial = record { outcome = settled o; attempts = suc n; slept = delays n };
    is_end = refl;
    retries = n;
    counted = refl;
    bounded = b;
    all_passing = r;
    last = ap settled (sym e);
    waits = refl;
  }

  -- One round, given what is known of the rounds after it.
  round_ends :
      (n : ℕ) (next : Option (Trial A)) (o : Outcome A)
      → func (suc n) ≡ o
      → n ≤ max_retries - 1
      → all_retried n ≡ true
      → (all_retried (suc n) ≡ true → leb max_retries (suc n) ≡ false → IsFinished next)
      → IsFinished (elim o [
        | returned a ↦ some (record { outcome = returned a; attempts = suc n; slept = delays n })
        | raised e ↦
            if ends max_retries (suc n) e
            then some
                (record { outcome = raised (final_failure e); attempts = suc n; slept = delays n })
            else next
      ])
  round_ends n next (returned a) e b r go = ended n (returned a) e b r
  round_ends n next (raised x) e b r go = elim (Bool-cases (ends max_retries (suc n) x)) [
    | inl over ↦ rw over (ended n (raised x) e b r)
    | inr more ↦
        let known = goes_on max_retries n x more in rw more (go (rw (e, known.0) r) known.1)
  ]

  loop_ends :
      (fuel n : ℕ)
      → n + fuel ≡ suc max_retries
      → n ≤ max_retries - 1
      → all_retried n ≡ true
      → IsFinished
          (attempt_from func max_retries backoff_factor fuel (suc n) (delay_at n) (delays n))
  unfolding attempt_from
  loop_ends zero n f b r = ground arith
  loop_ends (suc fuel) n f b r =
      round_ends n
        (attempt_from func max_retries backoff_factor fuel (suc (suc n)) (delay_at (suc n))
          (delays (suc n)))
        (func (suc n)) refl b r λ k l. loop_ends fuel (suc n) (ground arith) (ground arith) k

-- With one round of fuel more than the retries allowed, `execute_with_retry` ends.
pub execute_with_retry-IsFinished :
    {A : Type 0} (func : ℕ → Outcome A) (max_retries backoff_factor initial_delay : ℕ)
    → IsFinished func max_retries backoff_factor initial_delay
        (execute_with_retry func max_retries backoff_factor initial_delay)
unfolding execute_with_retry
execute_with_retry-IsFinished func max_retries backoff_factor initial_delay =
    loop_ends func max_retries backoff_factor initial_delay (suc max_retries) zero (ground arith)
      (ground arith) refl
