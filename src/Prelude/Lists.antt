-- ===== src/Prelude/Lists.antt =====
-- Lists of rows and of texts: membership, selection and update by a test, and what these keep.
use multi_agent_ai_system.Prelude.Tests.{◌==◌, if◌then◌else◌, Bool-cases}
use Prim.Native.Nat.{ℕ, suc}
use Prim.Native.String.{String}
use text.Mathlib.Text.{◌==◌ as str_eq}
use mathlib.Core.Path.{◌≡◌}
use mathlib.Core.Logic.{inl, inr}
use mathlib.Core.Bool.{Bool, true, false, ◌||◌}
use mathlib.Core.Option.{Option, none, some}
use mathlib.Core.List.{List, [], ◌∷◌, ◌++◌}

abbrev pub mem_str : String → List String → Bool
mem_str s [] = false
mem_str s (x ∷ xs) = str_eq s x || mem_str s xs

-- `d.get(k)` of a dictionary that is written as a list of its entries.
abbrev pub lookup {ℓ} : {V : Type ℓ} → String → List (String × V) → Option V
lookup k [] = none
lookup k ((j, v) ∷ d) = if str_eq k j then some v else lookup k d

module _ {ℓ} {A : Type ℓ} where
  abbrev pub length : List A → ℕ
  length [] = 0
  length (x ∷ xs) = suc (length xs)

  -- The rows that pass a test.
  abbrev pub select : (A → Bool) → List A → List A
  select p [] = []
  select p (x ∷ xs) = if p x then x ∷ select p xs else select p xs

  -- The rows that pass a test, each changed.
  abbrev pub update : (A → Bool) → (A → A) → List A → List A
  update p f [] = []
  update p f (x ∷ xs) = (if p x then f x else x) ∷ update p f xs

module _ {ℓ} {A : Type ℓ} (key : A → ℕ) where
  -- A row in place of each row that has its key.
  abbrev pub save : A → List A → List A
  save x [] = []
  save x (y ∷ ys) = (if key y == key x then x else y) ∷ save x ys

module _ {ℓ κ} {A : Type ℓ} where
  abbrev pub All : (A → Type κ) → List A → Type κ
  All P [] = Unit
  All P (x ∷ xs) = P x × All P xs

  pub All-append : (P : A → Type κ) (xs ys : List A) → All P xs → All P ys → All P (xs ++ ys)
  All-append P [] ys hx hy = hy
  All-append P (x ∷ xs) ys hx hy = (hx.0, All-append P xs ys hx.1 hy)

  pub All-save :
      (P : A → Type κ) (key : A → ℕ) (x : A) (xs : List A) → All P xs → P x → All P (save key x xs)
  All-save P key x [] h p = tt
  All-save P key x (y ∷ ys) h p = elim (Bool-cases (key y == key x)) [
    | inl same ↦ rw same (p, All-save P key x ys h.1 p)
    | inr other ↦ rw other (h.0, All-save P key x ys h.1 p)
  ]

  pub All-select : (P : A → Type κ) (p : A → Bool) (xs : List A) → All P xs → All P (select p xs)
  All-select P p [] h = tt
  All-select P p (x ∷ xs) h = elim (Bool-cases (p x)) [
    | inl here ↦ rw here (h.0, All-select P p xs h.1)
    | inr other ↦ rw other (All-select P p xs h.1)
  ]

module _ {ℓ} {A : Type ℓ} (p : A → Bool) where
  pub select-All : (xs : List A) → All (λ x. p x ≡ true) (select p xs)
  select-All [] = tt
  select-All (x ∷ xs) = elim (Bool-cases (p x)) [
    | inl here ↦ rw here (here, select-All xs)
    | inr other ↦ rw other (select-All xs)
  ]
