-- ===== src/Core/Triples.antt =====
-- Conditions before and after a call that works on a state and may raise, and the rules for the
-- statements of a `do` block.
use multi_agent_ai_system.Prelude.{
  Bool, true, false, Option, none, some, List, [], ◌∷◌, ◌≡◌, refl, if◌then◌else◌,
}
use multi_agent_ai_system.Core.Exceptions.{
  Exception, Result, ok, err, Action, lift, raise_if, attempt, or_raise, scalar_one_or_none,
  scalar_one, ◌>>=◌, ◌>>◌,
}

-- What holds of the outcome of a call: `Q` of a value and the state, and `E` of the state after a raise.
abbrev pub Holds : {S A : Type 0} → (A → S → Type 0) → (S → Type 0) → Result A × S → Type 0
Holds Q E (ok a, s) = Q a s
Holds Q E (err e, s) = E s

-- From every state with `P` the outcome of the call has `Q` and `E`.
abbrev pub Triple :
    {S A : Type 0} → (S → Type 0) → Action S A → (A → S → Type 0) → (S → Type 0) → Type 0
Triple {S} P m Q E = (s : S) → P s → Holds Q E (m s)

module _ {S A B : Type 0} (P : S → Type 0) (Q : A → S → Type 0) (R : B → S → Type 0)
    (E : S → Type 0) where
  bind_outcome :
      (f : A → Action S B)
      → ((a : A) → Triple (Q a) (f a) R E)
      → (o : Result A × S) → Holds Q E o
      → Holds R E (elim o.0 [ ok a ↦ f a o.1 | err e ↦ (err e, o.1) ])
  bind_outcome f g (ok a, s) h = g a s h
  bind_outcome f g (err e, s) h = h

  -- The rule of `x ← m; f x`
  pub bind_rule :
      (m : Action S A) (f : A → Action S B)
      → Triple P m Q E
      → ((a : A) → Triple (Q a) (f a) R E)
      → Triple P (m >>= f) R E
  unfolding ◌>>=◌
  bind_rule m f h g s p = bind_outcome f g (m s) (h s p)

module _ {S A : Type 0} (P P' : S → Type 0) (Q Q' : A → S → Type 0) (E E' : S → Type 0) where
  weaker :
      ((a : A) (s : S) → Q a s → Q' a s)
      → ((s : S) → E s → E' s)
      → (o : Result A × S) → Holds Q E o
      → Holds Q' E' o
  weaker q e (ok a, s) h = q a s h
  weaker q e (err x, s) h = e s h

  -- The rule of consequence
  pub consequence :
      (m : Action S A)
      → ((s : S) → P' s → P s)
      → ((a : A) (s : S) → Q a s → Q' a s)
      → ((s : S) → E s → E' s)
      → Triple P m Q E
      → Triple P' m Q' E'
  consequence m p q e h s x = weaker q e (m s) (h s (p s x))

-- The rule of `if`
pub either_rule :
    {S A : Type 0} (P : S → Type 0) (Q : A → S → Type 0) (E : S → Type 0) (b : Bool)
    (m k : Action S A)
    → Triple P m Q E
    → Triple P k Q E
    → Triple P (if b then m else k) Q E
either_rule P Q E true m k h g = h
either_rule P Q E false m k h g = g

module _ {S : Type 0} (I : S → Type 0) where
  -- A call that keeps an invariant, whether it raises or not.
  abbrev pub Keeps : {A : Type 0} → Action S A → Type 0
  Keeps m = Triple I m (λ _. I) I

  pub bind-Keeps :
      {A B : Type 0} (m : Action S A) (f : A → Action S B)
      → Keeps m
      → ((a : A) → Keeps (f a))
      → Keeps (m >>= f)
  bind-Keeps m f h g = bind_rule I (λ _. I) (λ _. I) I m f h g

  pub then-Keeps :
      {A B : Type 0} (m : Action S A) (k : Action S B) → Keeps m → Keeps k → Keeps (m >> k)
  unfolding ◌>>◌
  then-Keeps m k h g = bind-Keeps m (λ _. k) h λ _. g

-- What a query for at most one row says of the rows.
abbrev pub Found : {A : Type 0} → List A → Option A → Type 0
Found xs none = Unit
Found xs (some x) = xs ≡ x ∷ []

module _ {S : Type 0} where
  query_outcome :
      {A : Type 0} (P : S → Type 0) (rows : S → List A) (s : S) (xs : List A)
      → rows s ≡ xs
      → P s
      → Holds (λ o s'. P s' × Found (rows s') o) P (scalar_one_or_none xs s)
  query_outcome P rows s [] e p = (p, tt)
  query_outcome P rows s (x ∷ []) e p = (p, e)
  query_outcome P rows s (x ∷ y ∷ xs) e p = p

  -- The rule of a query for at most one row: nothing changes, and a row that is found is the only one.
  pub query_rule :
      {A : Type 0} (P : S → Type 0) (rows : S → List A)
      → Triple P (λ s. scalar_one_or_none (rows s) s) (λ o s. P s × Found (rows s) o) P
  query_rule P rows s p = query_outcome P rows s (rows s) refl p

  -- The rule of `if not row: raise e`
  pub or_raise_rule :
      {A : Type 0} (P : S → Type 0) (rows : S → List A) (o : Option A) (e : Exception)
      → Triple (λ s. P s × Found (rows s) o) (or_raise o e) (λ a s. P s × (rows s ≡ a ∷ [])) P
  or_raise_rule P rows none e s p = p.0
  or_raise_rule P rows (some a) e s p = p

  -- The rule of a guard: what follows may rely on its test.
  pub raise_if_rule :
      (P : S → Type 0) (b : Bool) (e : Exception)
      → Triple P (raise_if b e) (λ _ s. P s × (b ≡ false)) P
  raise_if_rule P true e s p = p
  raise_if_rule P false e s p = (p, refl)

  -- The rule of a check that does not touch the state.
  pub lift_rule :
      {A : Type 0} (P : S → Type 0) (r : Result A) → Triple P (lift r) (λ a s. P s × (r ≡ ok a)) P
  lift_rule P (ok a) s p = (p, refl)
  lift_rule P (err e) s p = p

module _ {S : Type 0} (I : S → Type 0) where
  queried : {A : Type 0} (xs : List A) (s : S) → I s → Holds (λ _. I) I (scalar_one_or_none xs s)
  queried [] s h = h
  queried (x ∷ []) s h = h
  queried (x ∷ y ∷ xs) s h = h

  pub query-Keeps : {A : Type 0} (rows : S → List A) → Keeps I (λ s. scalar_one_or_none (rows s) s)
  query-Keeps rows s h = queried (rows s) s h

  pub or_raise-Keeps : {A : Type 0} (o : Option A) (e : Exception) → Keeps I (or_raise o e)
  or_raise-Keeps none e s h = h
  or_raise-Keeps (some a) e s h = h

  one_queried : {A : Type 0} (xs : List A) (s : S) → I s → Holds (λ _. I) I (scalar_one xs s)
  one_queried [] s h = h
  one_queried (x ∷ []) s h = h
  one_queried (x ∷ y ∷ xs) s h = h

  pub scalar_one-Keeps : {A : Type 0} (rows : S → List A) → Keeps I (λ s. scalar_one (rows s) s)
  scalar_one-Keeps rows s h = one_queried (rows s) s h

  pub lift-Keeps : {A : Type 0} (r : Result A) → Keeps I (lift r)
  lift-Keeps (ok a) s h = h
  lift-Keeps (err e) s h = h

  pub raise_if-Keeps : (b : Bool) (e : Exception) → Keeps I (raise_if b e)
  raise_if-Keeps true e s h = h
  raise_if-Keeps false e s h = h

-- The rule of `if` with its test: each branch may rely on how the test came out.
pub case_rule :
    {S A : Type 0} (P : S → Type 0) (Q : A → S → Type 0) (E : S → Type 0) (b : Bool)
    (m k : Action S A)
    → (b ≡ true → Triple P m Q E)
    → (b ≡ false → Triple P k Q E)
    → Triple P (if b then m else k) Q E
case_rule P Q E true m k h g = h refl
case_rule P Q E false m k h g = g refl

-- What holds of the outcome that an attempt hands on.
abbrev pub Outcome : {S A : Type 0} → (A → S → Type 0) → (S → Type 0) → Result A → S → Type 0
Outcome Q E (ok a) s = Q a s
Outcome Q E (err e) s = E s

attempted :
    {S A : Type 0} (Q : A → S → Type 0) (E : S → Type 0) (o : Result A × S)
    → Holds Q E o
    → Outcome Q E o.0 o.1
attempted Q E (ok a, s) h = h
attempted Q E (err e, s) h = h

-- The rule of `try`: an attempt does not raise.
pub attempt_rule :
    {S A : Type 0} (P : S → Type 0) (Q : A → S → Type 0) (E F : S → Type 0) (m : Action S A)
    → Triple P m Q E
    → Triple P (attempt m) (Outcome Q E) F
attempt_rule P Q E F m h s p = attempted Q E (m s) (h s p)
