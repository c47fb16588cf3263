-- ===== src/Billing/Plans/Frame.antt =====
-- What the plan service leaves alone (app/billing/plans.py): the subscriptions, their history, the
-- payments and everything that was committed.
use multi_agent_ai_system.Prelude.{
  ℕ, suc, String, Option, none, some, List, [], ◌∷◌, Bool-cases, inl, inr, if◌then◌else◌, Bool,
  true, false, str_eq, select,
}
use multi_agent_ai_system.Prelude.Text.{lower}
use multi_agent_ai_system.Prelude.Int.{ℤ}
use multi_agent_ai_system.Core.Exceptions.{Result, ok, err, ◌>>=◌, ◌>>◌}
use multi_agent_ai_system.Core.Triples.{
  Holds, Keeps, bind-Keeps, then-Keeps, query-Keeps, or_raise-Keeps,
}
use multi_agent_ai_system.Billing.Models.{Plan, Subscription, SubscriptionHistory, Payment}
use multi_agent_ai_system.Billing.Session.{Session, Database}
use multi_agent_ai_system.Billing.Catalogue.{PlanDefinition, plan_definitions}
use multi_agent_ai_system.Billing.Plans.{
  plan_of_code, plan_not_found, get_plan_by_code, has_feature_row, sync_features, sync_limits,
  new_plan, rewrite_plan, create_or_rewrite, seed_plan, seed_each, seed_plans, or_seed,
  get_or_seed_plan, is_plan_not_found,
}

-- A property of the session that sees only these parts of it, and outlasts a new identifier.
module _ (F : List Subscription → List SubscriptionHistory → List Payment → Database → ℕ → Type 0)
    (later : (subs : List Subscription) (hs : List SubscriptionHistory) (ps : List Payment)
        (d : Database) (n : ℕ)
      → F subs hs ps d n
      → F subs hs ps d (suc n)) where
  abbrev Kept : Session → Type 0
  Kept s = F s.view.subscriptions s.view.histories s.view.payments s.stored s.next_id

  abbrev KeptIn : Database → Database → ℕ → Type 0
  KeptIn d stored n = F d.subscriptions d.histories d.payments stored n

  either-KeptIn :
      (b : Bool) (d d' stored : Database) (n : ℕ)
      → KeptIn d stored n
      → KeptIn d' stored n
      → KeptIn (if b then d else d') stored n
  either-KeptIn true d d' stored n h h' = h
  either-KeptIn false d d' stored n h h' = h'

  sync_features-KeptIn :
      (id : ℕ) (keys : List String) (d stored : Database) (n : ℕ)
      → KeptIn d stored n
      → KeptIn (sync_features id keys d) stored n
  unfolding sync_features
  sync_features-KeptIn id [] d stored n h = h
  sync_features-KeptIn id (key ∷ keys) d stored n h =
      sync_features-KeptIn id keys _ stored n
        (either-KeptIn (has_feature_row id key d.plan_features) _ _ stored n h h)

  sync_limits-KeptIn :
      (id : ℕ) (limits : List (String × ℤ)) (d stored : Database) (n : ℕ)
      → KeptIn d stored n
      → KeptIn (sync_limits id limits d) stored n
  unfolding sync_limits
  sync_limits-KeptIn id [] d stored n h = h
  sync_limits-KeptIn id ((metric, value) ∷ limits) d stored n h =
      sync_limits-KeptIn id limits _ stored n h

  create_or_rewrite-Kept :
      (defn : PlanDefinition) (plan : Option Plan) → Keeps Kept (create_or_rewrite defn plan)
  unfolding create_or_rewrite new_plan rewrite_plan ◌>>=◌ ◌>>◌
  create_or_rewrite-Kept defn none s h = later _ _ _ _ _ h
  create_or_rewrite-Kept defn (some plan) s h = h

  plan_of_code-Kept : (code : String) → Keeps Kept (plan_of_code code)
  plan_of_code-Kept code = query-Keeps Kept (λ s. select (λ p. str_eq p.code code) s.view.plans)

  seed_plan-Kept : (defn : PlanDefinition) → Keeps Kept (seed_plan defn)
  unfolding seed_plan
  seed_plan-Kept defn = bind-Keeps Kept _ _ (plan_of_code-Kept defn.code) λ plan.
      bind-Keeps Kept _ _ (create_or_rewrite-Kept defn plan) λ id.
        then-Keeps Kept _ _
          (λ s h. sync_features-KeptIn id defn.features s.view s.stored s.next_id h)
          λ s h. sync_limits-KeptIn id defn.limits s.view s.stored s.next_id h

  seed_each-Kept : (defns : List PlanDefinition) → Keeps Kept (seed_each defns)
  unfolding seed_each
  seed_each-Kept [] s h = h
  seed_each-Kept (defn ∷ defns) s h =
      then-Keeps Kept (seed_plan defn) (seed_each defns) (seed_plan-Kept defn)
        (seed_each-Kept defns) s h

  seed_plans-Kept : Keeps Kept seed_plans
  unfolding seed_plans
  seed_plans-Kept = seed_each-Kept plan_definitions

  get_plan_by_code-Kept : (code : String) → Keeps Kept (get_plan_by_code code)
  unfolding get_plan_by_code
  get_plan_by_code-Kept code =
      bind-Keeps Kept _ _ (plan_of_code-Kept (lower code))
        λ plan. or_raise-Keeps Kept plan plan_not_found

  reseeded :
      (code : String) (o : Result Plan × Session)
      → Holds (λ _. Kept) Kept o
      → Holds (λ _. Kept) Kept (or_seed code o)
  reseeded code (ok plan, s) h = h
  reseeded code (err e, s) h = elim (Bool-cases (is_plan_not_found e)) [
    | inl missing ↦ rw missing (
        then-Keeps Kept seed_plans (get_plan_by_code code) seed_plans-Kept
          (get_plan_by_code-Kept code) s h)
    | inr other ↦ rw other h
  ]

  -- Looking up a plan, with the seeding that may go with it, keeps them.
  pub get_or_seed_plan-Kept : (code : String) → Keeps Kept (get_or_seed_plan code)
  unfolding get_or_seed_plan
  get_or_seed_plan-Kept code s h =
      reseeded code (get_plan_by_code code s) (get_plan_by_code-Kept code s h)
