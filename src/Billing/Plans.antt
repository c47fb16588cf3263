-- ===== src/Billing/Plans.antt =====
-- app/billing/plans.py: the billed amount of a cycle, and `PlanService`.
pub mod Amounts
pub mod Frame
use multi_agent_ai_system.Prelude.{
  ℕ, ◌+◌, ◌*◌, ◌/◌, ◌%◌, String, str_eq, ◌==◌, Bool, true, false, ◌&&◌, Option, none, some, List,
  [], ◌∷◌, ◌++◌, select, update, if◌then◌else◌,
}
use multi_agent_ai_system.Prelude.Text.{lower, upper}
use multi_agent_ai_system.Prelude.Int.{ℤ, pos, negsuc, ltb_ℤ}
use multi_agent_ai_system.Core.Exceptions.{
  Exception, app_exception, Action, Result, ok, err, pure, raise, gets, scalar_one_or_none,
  or_raise, ◌>>=◌, ◌>>◌,
}
use multi_agent_ai_system.Billing.Models.{Plan, PlanFeature, PlanLimit}
use multi_agent_ai_system.Billing.Session.{Session, Database, change, new_id}
use multi_agent_ai_system.Billing.Catalogue.{PlanDefinition, plan_definitions}

-- `(raw_year - discount).quantize(0.01)` of n hundredths: n * 12 * 0.85 = 51 * n / 5, to the nearest
-- hundredth. A fifth is never a half, so the tie rule of `quantize` is not reached.
abbrev yearly : ℕ → ℕ
yearly n = (n * 102 + 5) / 10

abbrev pub negate : ℕ → ℤ
negate n = elim n [ ℕ.zero ↦ pos 0 | ℕ.suc m ↦ negsuc m ]

-- The amounts of the rows have two places, so that `quantize` leaves a monthly price as it is.
unfoldable pub calculate_billed_amount : ℤ → String → ℤ
calculate_billed_amount (pos n) billing_cycle =
    if str_eq (upper billing_cycle) "YEARLY" then pos (yearly n) else pos n
calculate_billed_amount (negsuc n) billing_cycle =
    if str_eq (upper billing_cycle) "YEARLY" then negate (yearly (n + 1)) else negsuc n

abbrev pub plan_not_found : Exception
plan_not_found = app_exception "PLAN_NOT_FOUND" 404

-- `select(Plan).where(Plan.code == …)`
abbrev pub plan_of_code : String → Action Session (Option Plan)
plan_of_code code s = scalar_one_or_none (select (λ p. str_eq p.code code) s.view.plans) s

unfoldable pub get_plan_by_code : String → Action Session Plan
unfolding lower
get_plan_by_code code = do or_raise (← plan_of_code (lower code)) plan_not_found

unfoldable pub get_plan_by_id : ℕ → Action Session Plan
get_plan_by_id plan_id = do
  plan ← λ s. scalar_one_or_none (select (λ p. p.id == plan_id) s.view.plans) s
  or_raise plan plan_not_found

has_feature_row : ℕ → String → List PlanFeature → Bool
has_feature_row plan_id key [] = false
has_feature_row plan_id key (f ∷ fs) =
    if f.plan_id == plan_id && str_eq f.feature_key key
    then true
    else has_feature_row plan_id key fs

-- The features of a definition that a plan has no row for get one.
sync_features : ℕ → List String → Database → Database
unfolding has_feature_row
sync_features plan_id [] d = d
sync_features plan_id (key ∷ keys) d = sync_features plan_id keys (
    if has_feature_row plan_id key d.plan_features then d else record d {
      plan_features =
          d.plan_features
          ++ record { plan_id = plan_id; feature_key = key; is_enabled = true } ∷ [];
    })

has_limit_row : ℕ → String → List PlanLimit → Bool
has_limit_row plan_id metric [] = false
has_limit_row plan_id metric (l ∷ ls) =
    if l.plan_id == plan_id && str_eq l.metric metric then true else has_limit_row plan_id metric ls

-- Every limit of a definition is written to its row, which is added where it is missing.
sync_limits : ℕ → List (String × ℤ) → Database → Database
unfolding has_limit_row
sync_limits plan_id [] d = d
sync_limits plan_id ((metric, value) ∷ limits) d = sync_limits plan_id limits (record d {
  plan_limits =
      if has_limit_row plan_id metric d.plan_limits
      then update (λ l. l.plan_id == plan_id && str_eq l.metric metric)
          (λ l. record l { limit_value = value }) d.plan_limits
      else d.plan_limits ++ record { plan_id = plan_id; metric = metric; limit_value = value } ∷ [];
})

new_plan : PlanDefinition → Action Session ℕ
new_plan defn = do
  id ← new_id
  change (λ d. record d {
    plans =
        d.plans
        ++ record {
          id = id;
          name = defn.name;
          code = defn.code;
          description = defn.description;
          price_monthly = defn.price_monthly;
          price_yearly = defn.price_yearly;
          currency = "IDR";
          is_active = true;
        }
          ∷ [];
  })
  pure id

rewrite_plan : PlanDefinition → Plan → Action Session ℕ
rewrite_plan defn plan = do
  change (λ d. record d {
    plans =
        update (λ p. p.id == plan.id)
          (λ p. record p {
            name = defn.name;
            description = defn.description;
            price_monthly = defn.price_monthly;
            price_yearly = defn.price_yearly;
          })
          d.plans;
  })
  pure plan.id

create_or_rewrite : PlanDefinition → Option Plan → Action Session ℕ
unfolding new_plan rewrite_plan
create_or_rewrite defn none = new_plan defn
create_or_rewrite defn (some plan) = rewrite_plan defn plan

seed_plan : PlanDefinition → Action Session (Unit {0})
unfolding create_or_rewrite sync_features sync_limits
seed_plan defn = do
  plan ← plan_of_code defn.code
  id ← create_or_rewrite defn plan
  change (sync_features id defn.features)
  change (sync_limits id defn.limits)

seed_each : List PlanDefinition → Action Session (Unit {0})
unfolding seed_plan
seed_each [] = pure tt
seed_each (defn ∷ defns) = seed_plan defn >> seed_each defns

-- The result of the listing at the end is used by no caller here.
unfoldable pub seed_plans : Action Session (Unit {0})
unfolding seed_each
seed_plans = seed_each plan_definitions

-- `try: get_plan_by_code(code)`, and on `PlanNotFoundError` once more after `seed_plans()`
abbrev pub is_plan_not_found : Exception → Bool
is_plan_not_found (Exception.app_exception code status) = str_eq code "PLAN_NOT_FOUND"
is_plan_not_found _ = false

abbrev pub or_seed : String → Result Plan × Session → Result Plan × Session
or_seed code (ok plan, s) = (ok plan, s)
or_seed code (err e, s) =
    if is_plan_not_found e then (seed_plans >> get_plan_by_code code) s else (err e, s)

unfoldable pub get_or_seed_plan : String → Action Session Plan
unfolding seed_plans get_plan_by_code
get_or_seed_plan code s = or_seed code (get_plan_by_code code s)
