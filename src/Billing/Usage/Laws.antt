-- ===== src/Billing/Usage/Laws.antt =====
-- What recording a usage does, by the policy for what goes beyond the limit.
use multi_agent_ai_system.Prelude.{
  ℕ, ◌*◌, ◌≤◌, String, str_eq, eq_iff, Bool, true, false, Bool-cases, ◌||◌, some, List, [], ◌∷◌,
  ◌++◌, select, ◌≡◌, refl, sym, ◌∙◌, subst, ◌⊎◌, inl, inr, arith, ap,
}
use multi_agent_ai_system.Prelude.Int.{ℤ, pos, ◌+ℤ◌, ltb_ℤ, int_laws}
use multi_agent_ai_system.Core.Exceptions.{ok, bind_ok, ◌>>=◌, ◌>>◌, pure}
use multi_agent_ai_system.Core.Triples.{Holds, Triple, bind_rule, either_rule}
use multi_agent_ai_system.Billing.Models.{UsageRecord}
use multi_agent_ai_system.Billing.Session.{Session, Database}
use multi_agent_ai_system.Billing.Entitlement.{get_limit}
use multi_agent_ai_system.Billing.Usage.{
  calculate_ai_credits, get_current_period, total_quantity, counted, usage_in, get_current_usage,
  Request, over_limit, is_over, check_policy, crosses, threshold, thresholds, usage_row, add_usage,
  record_usage, check_and_increment_usage,
}

-- At least one credit is charged, and no more than one for ten tokens unless it is the first.
pub calculate_ai_credits_bounds :
    (tokens : ℕ)
    → (1 ≤ calculate_ai_credits (some (pos tokens)))
      × ((calculate_ai_credits (some (pos tokens)) ≡ 1)
          ⊎ (calculate_ai_credits (some (pos tokens)) * 10 ≤ tokens))
unfolding calculate_ai_credits
calculate_ai_credits_bounds tokens = ground arith

module _ (q : Request) (period : ℕ × ℕ) where
  abbrev in_its_period : UsageRecord → Bool
  in_its_period = counted q.tenant_id q.metric period.0 period.1

  row_counted : in_its_period (usage_row q period) ≡ true
  row_counted = ground (arith, eq_iff q.metric q.metric)

  -- The total of a period grows by the quantity of a row that is added to it.
  total_grows :
      (rows : List UsageRecord)
      → total_quantity (select in_its_period (rows ++ usage_row q period ∷ []))
        ≡ total_quantity (select in_its_period rows) +ℤ q.quantity
  unfolding total_quantity
  total_grows [] = rw row_counted (grind int_laws)
  total_grows (r ∷ rows) = elim (Bool-cases (in_its_period r)) [
    | inl here ↦ rw here (grind (int_laws, total_grows rows))
    | inr other ↦ rw other (total_grows rows)
  ]

module _ (q : Request) (current projected limit : ℤ) (s : Session) where
  -- A policy other than BLOCK, or a usage within the limit
  abbrev pub IsPermitted : Type 0
  IsPermitted = (str_eq q.policy "BLOCK" ≡ false) ⊎ (is_over projected limit ≡ false)

  abbrev Passed : Unit {0} → Session → Type 0
  Passed _ t = (t.view ≡ s.view) × IsPermitted

  over_limit-Passed :
      str_eq q.policy "BLOCK" ≡ false
      → Holds Passed (λ t. t ≡ s) (over_limit q current projected limit s)
  unfolding over_limit
  over_limit-Passed permitted = rw permitted (elim (Bool-cases (str_eq q.policy "WARN")) [
    | inl warn ↦ rw warn (refl, inl permitted)
    | inr w ↦
        rw w (elim (Bool-cases (str_eq q.policy "ALLOW" || str_eq q.policy "APPROVED_OVERAGE")) [
          | inl allow ↦ rw allow (refl, inl permitted)
          | inr a ↦ rw a (elim (Bool-cases (str_eq q.policy "DEGRADE")) [
            | inl degrade ↦ rw degrade (refl, inl permitted)
            | inr d ↦ rw d refl
          ])
        ])
  ])

  check_policy-Passed :
      Triple (λ t. t ≡ s) (check_policy q current projected limit) Passed (λ t. t ≡ s)
  unfolding check_policy
  check_policy-Passed t h = rw h (elim (Bool-cases (is_over projected limit)) [
    | inr within ↦ rw within (refl, inr within)
    | inl over ↦ rw over (elim (Bool-cases (str_eq q.policy "BLOCK")) [
      | inl block ↦ rw (block, over_limit) refl
      | inr permitted ↦ over_limit-Passed permitted
    ])
  ])

-- The events of the thresholds leave the database as it is, and none of them raises.
module _ (I : Database → Database → Type 0) (E : Session → Type 0) (q : Request)
    (current projected limit : ℤ) where
  abbrev Same : Session → Type 0
  Same t = I t.view t.stored

  threshold-Same :
      (n : ℕ) (event_type : String)
      → Triple Same (threshold q current projected limit n event_type) (λ _. Same) E
  unfolding threshold
  threshold-Same n event_type =
      either_rule Same (λ _. Same) E (crosses n current projected limit) _ (pure tt) (λ s h. h)
        λ s h. h

  thresholds-Same : Triple Same (thresholds q current projected limit) (λ _. Same) E
  unfolding thresholds ◌>>◌
  thresholds-Same =
      let Q : Unit {0} → Session → Type 0 = λ _. Same in
      either_rule Same Q E (ltb_ℤ (pos 0) limit) _ (pure tt)
        (bind_rule Same Q Q E _ _ (threshold-Same 70 "usage.warning") λ _.
          bind_rule Same Q Q E _ _ (threshold-Same 85 "usage.warning")
            λ _. threshold-Same 100 "usage.limit_reached")
        λ s h. h

module _ (q : Request) (period : ℕ × ℕ) (limit current : ℤ) (s : Session)
    (counts : usage_in q.tenant_id q.metric period.0 period.1 s.view ≡ current) where
  abbrev Grown : Database → Database → Type 0
  Grown view stored =
      ((usage_in q.tenant_id q.metric period.0 period.1 view ≡ current +ℤ q.quantity)
        × (stored ≡ view))
      × IsPermitted q current (current +ℤ q.quantity) limit s

  add_usage-Grown :
      Triple
        (Passed q current (current +ℤ q.quantity) limit s tt)
        (add_usage (usage_row q period))
        (λ _ t. Grown t.view t.stored)
        (λ t. t ≡ s)
  unfolding add_usage ◌>>=◌ ◌>>◌
  add_usage-Grown t (same, permitted) = (
    (rw same (total_grows q period s.view.usage_records ∙ ap (λ c. c +ℤ q.quantity) counts), refl),
    permitted,
  )

  record_usage-Grown :
      Triple
        (λ t. t ≡ s)
        (record_usage q period limit current)
        (λ _ t. Grown t.view t.stored)
        (λ t. t ≡ s)
  unfolding record_usage ◌>>◌
  record_usage-Grown =
      let E : Session → Type 0 = λ t. t ≡ s in
      let G : UsageRecord → Session → Type 0 = λ _ t. Grown t.view t.stored in
      bind_rule E (Passed q current (current +ℤ q.quantity) limit s) G E _ _
        (check_policy-Passed q current (current +ℤ q.quantity) limit s)
        λ _.
          bind_rule (Passed q current (current +ℤ q.quantity) limit s tt)
            (λ _ t. Grown t.view t.stored) G E _ _ add_usage-Grown
            λ _.
              bind_rule (λ t. Grown t.view t.stored) (λ _ t. Grown t.view t.stored) G E _ _
                (thresholds-Same Grown E q current (current +ℤ q.quantity) limit) λ _ t h. h

get_current_usage-at :
    (tenant_id : ℕ) (metric : String) (period : ℕ × ℕ) (s : Session)
    → get_current_period tenant_id s ≡ (ok period, s)
    → get_current_usage tenant_id metric s
      ≡ (ok (usage_in tenant_id metric period.0 period.1 s.view), s)
unfolding get_current_usage
get_current_usage-at tenant_id metric period s e = bind_ok _ _ s s period e

-- In a session with a current period and a limit, a usage is recorded or refused. When it is recorded,
-- the total of the period has grown by exactly its quantity, that is committed, and the policy was not
-- BLOCK or the new total is within the limit. When it is refused, the session is as it was.
pub check_and_increment_usage-exact :
    (now : ℕ) (q : Request) (period : ℕ × ℕ) (limit : ℤ) (s : Session)
    → get_current_period q.tenant_id s ≡ (ok period, s)
    → get_limit now q.tenant_id q.metric s ≡ (ok limit, s)
    → let current = usage_in q.tenant_id q.metric period.0 period.1 s.view in
      Holds
        (λ _ s'.
          ((usage_in q.tenant_id q.metric period.0 period.1 s'.view ≡ current +ℤ q.quantity)
            × (s'.stored ≡ s'.view))
          × IsPermitted q current (current +ℤ q.quantity) limit s)
        (λ s'. s' ≡ s)
        (check_and_increment_usage now q s)
unfolding check_and_increment_usage
check_and_increment_usage-exact now q period limit s at_period at_limit =
    let current = usage_in q.tenant_id q.metric period.0 period.1 s.view in
    subst (Holds (λ _ t. Grown q period limit current s refl t.view t.stored) (λ t. t ≡ s))
      (sym (
        bind_ok _ _ s s period at_period
        ∙ (bind_ok _ _ s s limit at_limit
            ∙ bind_ok _ _ s s current
                (get_current_usage-at q.tenant_id q.metric period s at_period))))
      (record_usage-Grown q period limit current s refl s refl)
