-- ===== src/Core/Exceptions.antt =====
-- app/core/exceptions.py: what a call may raise, and results that carry it. A message is a text
-- for people and is left out; an exception of the application keeps its code and its HTTP status.
use multi_agent_ai_system.Prelude.{
  ℕ, String, Bool, true, false, Option, none, some, List, [], ◌∷◌, ◌≡◌, refl, ap, ◌⊎◌, inl, inr,
}

pub data Exception : Type 0 where
  app_exception : String → ℕ → Exception
  value_error : Exception
  invalid_state_transition : String → String → Exception
  multiple_results_found : Exception
  no_result_found : Exception
  attribute_error : Exception
  type_error : Exception
  agent_execution_error : Exception
  agent_permission_error : Exception
  agent_validation_error : Exception
  ai_rate_limit_error : Exception
  invalid_request_error : Exception
  key_error : Exception

-- `AppError(message, status_code=…)`, with the default code
abbrev pub app_error : ℕ → Exception
app_error status = app_exception "APPLICATION_ERROR" status

pub data Result (A : Type 0) : Type 0 where
  ok : A → Result A
  err : Exception → Result A

pub Result-cases : (r : Result (Unit {0})) → (r ≡ ok tt) ⊎ ((e : Exception) × (r ≡ err e))
Result-cases (ok tt) = inl refl
Result-cases (err e) = inr (e, refl)

pub Result-split :
    {A : Type 0} (r : Result A) → ((a : A) × (r ≡ ok a)) ⊎ ((e : Exception) × (r ≡ err e))
Result-split (ok a) = inl (a, refl)
Result-split (err e) = inr (e, refl)

-- A call that works on a state and may raise. The state comes back after a raise too: what was
-- assigned stays assigned until the caller rolls it back.
abbrev pub Action : Type 0 → Type 0 → Type 0
Action S A = S → Result A × S

module _ {S A : Type 0} where
  abbrev pub pure : A → Action S A
  pure a s = (ok a, s)

  abbrev pub raise : Exception → Action S A
  raise e s = (err e, s)

  abbrev pub gets : (S → A) → Action S A
  gets f s = (ok (f s), s)

  abbrev pub lift : Result A → Action S A
  lift r s = (r, s)

  -- `scalar_one_or_none()` of the rows that a query found
  abbrev pub scalar_one_or_none : List A → Action S (Option A)
  scalar_one_or_none [] s = (ok none, s)
  scalar_one_or_none (x ∷ []) s = (ok (some x), s)
  scalar_one_or_none (x ∷ y ∷ xs) s = (err multiple_results_found, s)

  -- `scalar_one()`
  abbrev pub scalar_one : List A → Action S A
  scalar_one [] s = (err no_result_found, s)
  scalar_one (x ∷ []) s = (ok x, s)
  scalar_one (x ∷ y ∷ xs) s = (err multiple_results_found, s)

  -- `if not row: raise e`
  abbrev pub or_raise : Option A → Exception → Action S A
  or_raise none e = raise e
  or_raise (some a) _ = pure a

-- `try: m except Exception as exc: …`, with what it raised for the handler
abbrev pub attempt : {S A : Type 0} → Action S A → Action S (Result A)
attempt m s = let (r, s') = m s in (ok r, s')

abbrev pub modify : {S : Type 0} → (S → S) → Action S (Unit {0})
modify f s = (ok tt, f s)

abbrev pub raise_if : {S : Type 0} → Bool → Exception → Action S (Unit {0})
raise_if true e s = (err e, s)
raise_if false e s = (ok tt, s)

infixl 5 ◌>>=◌ ◌>>◌
unfoldable pub ◌>>=◌ : {S A B : Type 0} → Action S A → (A → Action S B) → Action S B
◌>>=◌ m f s = let (r, s') = m s in elim r [ ok a ↦ f a s' | err e ↦ (err e, s') ]

unfoldable pub ◌>>◌ : {S A B : Type 0} → Action S A → Action S B → Action S B
m >> k = m >>= λ _. k

-- A step that is known to return, or to raise, decides how a block goes on.
module _ {S A B : Type 0} (m : Action S A) (f : A → Action S B) (s s' : S) where
  pub bind_ok : (a : A) → m s ≡ (ok a, s') → (m >>= f) s ≡ f a s'
  unfolding ◌>>=◌
  bind_ok a e = ap (λ (o : Result A × S). elim o.0 [ ok b ↦ f b o.1 | err x ↦ (err x, o.1) ]) e

  pub bind_err : (x : Exception) → m s ≡ (err x, s') → (m >>= f) s ≡ (err x, s')
  unfolding ◌>>=◌
  bind_err x e = ap (λ (o : Result A × S). elim o.0 [ ok b ↦ f b o.1 | err y ↦ (err y, o.1) ]) e
