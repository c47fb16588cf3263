-- ===== src/StateMachine/Table.antt =====
-- What the validators share: reading a text as a member of a `str` enumeration, membership of a
-- member in a set of members, and the one shape of the validators over such a table.
use multi_agent_ai_system.Prelude.{
  String, str_eq, eq_iff, mem_str, Bool, true, not, ◌&&◌, ◌||◌, Bool-cases, Option, none, some,
  Option-cases, List, [], ◌∷◌, map, ◌≡◌, ◌⊎◌, inl, inr, arith, if◌then◌else◌,
}
use multi_agent_ai_system.Core.Exceptions.{Exception, Result, ok, err}

abbrev pub every : {A : Type 0} → (A → Bool) → List A → Bool
every p [] = true
every p (x ∷ xs) = p x && every p xs

module _ {S : Type 0} (value : S → String) where
  -- `Enum(text)`: the first member whose value is the text, and `none` for a `ValueError`
  abbrev pub parse : List S → String → Option S
  parse [] t = none
  parse (x ∷ xs) t = if str_eq (value x) t then some x else parse xs t

  -- `member in set`, where members are compared by their values
  abbrev pub contains : S → List S → Bool
  contains x xs = mem_str (value x) (map value xs)

  pub parse_sound : (xs : List S) (t : String) (x : S) → parse xs t ≡ some x → value x ≡ t
  parse_sound [] t x h = cc
  parse_sound (y ∷ xs) t x h = ground (arith, eq_iff (value y) t, parse_sound xs t x)

  -- A test that passes at every member passes at the member that a text is read as.
  pub every-parse :
      (p : S → Bool) (xs : List S) (t : String) (x : S)
      → parse xs t ≡ some x
      → every p xs ≡ true
      → p x ≡ true
  every-parse p [] t x h k = cc
  every-parse p (y ∷ xs) t x h k = ground (arith, every-parse p xs t x)

-- The validators of the enumerated statuses have one shape: equal texts pass, then both texts have
-- to be members, and the target has to be in the set that the table gives for the current one.
module _ {S : Type 0} (value : S → String) (members : List S) (allowed : S → List S) where
  unfoldable pub validate_transition : Exception → String → String → Result (Unit {0})
  validate_transition e current target =
      if str_eq current target then ok tt else elim (parse value members current) [
        | none ↦ err e
        | some c ↦ elim (parse value members target) [
          | none ↦ err e
          | some t ↦ if contains value t (allowed c) then ok tt else err e
        ]
      ]

  -- A property of two texts holds at each step of the table. On a concrete table it computes.
  abbrev pub each_step : (String → String → Bool) → Bool
  each_step p =
      every (λ a. every (λ b. not (contains value b (allowed a)) || p (value a) (value b)) members)
        members

  -- An accepted transition changes nothing, or is a step of the table between two members.
  pub accepted_step :
      (e : Exception) (s t : String)
      → validate_transition e s t ≡ ok tt
      → (s ≡ t)
        ⊎ ((a b : S) × (parse value members s ≡ some a)
            × (parse value members t ≡ some b)
            × (contains value b (allowed a) ≡ true))
  unfolding validate_transition
  accepted_step e s t h = elim (Bool-cases (str_eq s t)) [
    | inl same ↦ inl ((eq_iff s t).0 same)
    | inr differ ↦ elim (Option-cases (parse value members s)) [
      | inl unknown ↦ ground arith
      | inr (a, ea) ↦ elim (Option-cases (parse value members t)) [
        | inl unknown ↦ ground arith
        | inr (b, eb) ↦ inr (a, b, ea, eb, ground arith)
      ]
    ]
  ]

  step_at :
      (p : String → String → Bool) (s t : String) (a b : S)
      → parse value members s ≡ some a
      → parse value members t ≡ some b
      → contains value b (allowed a) ≡ true
      → each_step p ≡ true
      → p s t ≡ true
  step_at p s t a b ea eb k h =
      let row =
        every-parse value
          (λ x. every (λ y. not (contains value y (allowed x)) || p (value x) (value y)) members)
          members s a ea h in
      let entry =
        every-parse value (λ y. not (contains value y (allowed a)) || p (value a) (value y)) members
          t b eb row in
      let test : p (value a) (value b) ≡ true = ground arith in
      rw (← parse_sound value members s a ea, ← parse_sound value members t b eb) test

  -- So a property of the table's steps holds of each accepted transition between two statuses.
  pub accepted_each :
      (p : String → String → Bool) (e : Exception) (s t : String)
      → each_step p ≡ true
      → validate_transition e s t ≡ ok tt
      → (s ≡ t) ⊎ (p s t ≡ true)
  accepted_each p e s t h k = elim (accepted_step e s t k) [
    | inl same ↦ inl same
    | inr (a, b, ea, eb, c) ↦ inr (step_at p s t a b ea eb c h)
  ]
