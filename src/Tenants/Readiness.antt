-- ===== src/Tenants/Readiness.antt =====
-- app/tenants/provisioning/readiness.py: `ReadinessCalculator.calculate`. A score counts hundredths. The
-- floating-point share of a category, `round(completed / total * weight, 2)`, is the parameter `share`.
pub mod Laws
use multi_agent_ai_system.Prelude.{
  ℕ, suc, ◌+◌, leb, ltb, String, str_eq, lookup, Bool, true, false, ◌&&◌, Option, none, some, List,
  [], ◌∷◌, map, select, length, if◌then◌else◌,
}

pub record OnboardingChecklist : Type 0 where
  pub key : String
  pub category : String
  pub status : String
  pub required : Bool

-- `CATEGORY_WEIGHTS`, in hundredths
abbrev pub category_weights : List (String × ℕ)
category_weights =
    ("Business Profile", 2000)
    ∷ ("Products", 2000)
    ∷ ("Knowledge", 1500)
    ∷ ("Policies", 1500)
    ∷ ("AI Guardrails", 1000)
    ∷ ("Operational Configuration", 1000)
    ∷ ("Integration Readiness", 1000)
    ∷ []

pub record ReadinessResult : Type 0 where
  pub score : ℕ
  pub completed_requirements : List String
  pub incomplete_requirements : List String
  pub blocking_requirements : List String
  pub category_scores : List (String × ℕ)
  pub readiness_status : String

abbrev pub keys_of : (OnboardingChecklist → Bool) → List OnboardingChecklist → List String
keys_of test items = map (λ i. i.key) (select test items)

abbrev pub total : List (String × ℕ) → ℕ
total [] = 0
total (row ∷ rows) = row.1 + total rows

abbrev pub is_empty : List String → Bool
is_empty [] = true
is_empty (k ∷ ks) = false

abbrev pub status_of : ℕ → List String → String
status_of score blocking =
    if leb 9000 score && is_empty blocking
    then "READY"
    else if leb 6000 score
    then "NEARLY_READY"
    else "NOT_READY"

module _ (validation_results : List (String × Bool)) where
  -- `validation_results.get(item.key, item.status == "COMPLETED")`
  abbrev pub is_valid : OnboardingChecklist → Bool
  is_valid item = elim (lookup item.key validation_results) [
    | some b ↦ b
    | none ↦ str_eq item.status "COMPLETED"
  ]

  abbrev pub completed_keys : List OnboardingChecklist → List String
  completed_keys items = keys_of is_valid items

  abbrev pub is_incomplete : OnboardingChecklist → Bool
  is_incomplete item = if is_valid item then false else true

  abbrev pub is_blocking : OnboardingChecklist → Bool
  is_blocking item = is_incomplete item && item.required

module _ (share : ℕ → ℕ → ℕ → ℕ) (validation_results : List (String × Bool)) where
  abbrev pub category_score : List OnboardingChecklist → String × ℕ → ℕ
  category_score items (cat, weight) =
      let items_in_cat = select (λ i. str_eq i.category cat) items in
      elim items_in_cat [
        | [] ↦ 0
        | i ∷ is ↦
            share (length (select (is_valid validation_results) (i ∷ is))) (length (i ∷ is)) weight
      ]

  abbrev pub scores : List OnboardingChecklist → List (String × ℕ) → List (String × ℕ)
  scores items [] = []
  scores items (row ∷ rows) = (row.0, category_score items row) ∷ scores items rows

  unfoldable pub calculate : List OnboardingChecklist → ReadinessResult
  calculate items =
      let category_scores = scores items category_weights in
      let sum = total category_scores in
      let score = if leb sum 10000 then sum else 10000 in
      let blocking = keys_of (is_blocking validation_results) items in
      record {
        score = score;
        completed_requirements = completed_keys validation_results items;
        incomplete_requirements = keys_of (is_incomplete validation_results) items;
        blocking_requirements = blocking;
        category_scores = category_scores;
        readiness_status = status_of score blocking;
      }
