-- ===== src/AiGateway/Laws.antt =====
-- What a call of the gateway records, and how near the estimated cost is (app/core/ai_gateway).
use multi_agent_ai_system.Prelude.{
  ℕ, ◌+◌, ◌*◌, ◌≤◌, String, true, false, none, some, [], ◌∷◌, ◌++◌, ◌≡◌, refl, ◌∙◌, ap, inl, inr,
  arith,
}
use multi_agent_ai_system.Core.Exceptions.{
  Exception, Result, ok, err, Action, Result-cases, attempt, bind_ok, bind_err, ◌>>◌,
}
use multi_agent_ai_system.Limits.RateLimiter.{RateLimiter, check_rate_limit}
use multi_agent_ai_system.Billing.Usage.{check_and_increment_usage}
use multi_agent_ai_system.AiGateway.{
  AiRequest, AiResponse, AiUsage, GatewayState, quantize, calculate_estimated_cost, usage_row,
  record_usage, generate, insert_usage, on_billing, credits_of,
}

-- The estimated cost in millionths is within half a millionth of the price of the tokens.
pub calculate_estimated_cost-near :
    (input_tokens output_tokens cost : ℕ)
    → calculate_estimated_cost (some input_tokens) (some output_tokens) ≡ some cost
    → (cost * 1000 ≤ input_tokens * 75 + output_tokens * 300 + 500)
      × (input_tokens * 75 + output_tokens * 300 ≤ cost * 1000 + 500)
unfolding calculate_estimated_cost quantize
calculate_estimated_cost-near input_tokens output_tokens cost h = ground arith

-- What the recording of an outcome leaves behind.
record Written {W : Type 0} (stores : AiUsage → Result (Unit {0})) (now : ℕ) (request : AiRequest)
    (request_id : String) (outcome : Result AiResponse) (s : GatewayState W) : Type 0 where
  final : GatewayState W
  written : record_usage stores now request request_id outcome s ≡ (ok tt, final)
  one_row : final.usages ≡ s.usages ++ usage_row request request_id outcome ∷ []
  same_world : final.world ≡ s.world
  same_limiter : final.limiter ≡ s.limiter
  no_credits : (e : Exception) → outcome ≡ err e → final.billing ≡ s.billing

module _ {W : Type 0} (stores : AiUsage → Result (Unit {0})) (now : ℕ) (request : AiRequest)
    (request_id : String) (takes : (row : AiUsage) → stores row ≡ ok tt) where
  abbrev inserted : Result AiResponse → GatewayState W → GatewayState W
  inserted outcome s = record s { usages = s.usages ++ usage_row request request_id outcome ∷ [] }

  insert_usage-taken :
      (outcome : Result AiResponse) (s : GatewayState W)
      → attempt (insert_usage stores (usage_row request request_id outcome)) s
        ≡ (ok (ok tt), inserted outcome s)
  insert_usage-taken outcome s =
      ap
        (λ (r : Result (Unit {0})).
          let o : Result (Unit {0}) × GatewayState W = elim r [
            | ok _ ↦ (ok tt, inserted outcome s)
            | err e ↦ (err e, s)
          ] in
          (Result.ok o.0, o.1))
        (takes (usage_row request request_id outcome))

  abbrev charged : AiResponse → GatewayState W → GatewayState W
  charged response s =
      (on_billing (check_and_increment_usage now (credits_of request response)) s).1

  record_usage-Written :
      (outcome : Result AiResponse) (s : GatewayState W)
      → Written stores now request request_id outcome s
  unfolding record_usage
  record_usage-Written (ok response) s = record {
    final = charged response (inserted (ok response) s);
    written =
        bind_ok _ _ s (inserted (ok response) s) (ok tt) (insert_usage-taken (ok response) s)
        ∙ bind_ok _ _ (inserted (ok response) s) (charged response (inserted (ok response) s))
            (on_billing (check_and_increment_usage now (credits_of request response))
              (inserted (ok response) s)).0
            refl;
    one_row = refl;
    same_world = refl;
    same_limiter = refl;
    no_credits = λ e a. cc;
  }
  record_usage-Written (err e) s = record {
    final = inserted (err e) s;
    written = bind_ok _ _ s (inserted (err e) s) (ok tt) (insert_usage-taken (err e) s);
    one_row = refl;
    same_world = refl;
    same_limiter = refl;
    no_credits = λ x a. refl;
  }

-- A row of usage that tells whose call it was, and how it came out.
pub Tells : AiRequest → String → Result AiResponse → AiUsage → Type 0
Tells request request_id (ok response) row =
    (row.tenant_id ≡ request.tenant_id)
    × (row.request_id ≡ request_id)
    × (row.success ≡ true)
    × (row.task_type ≡ request.task_type)
    × (row.model ≡ response.model)
    × (row.input_tokens ≡ response.input_tokens)
    × (row.output_tokens ≡ response.output_tokens)
    × (row.total_tokens ≡ response.total_tokens)
    × (row.usage_status ≡ response.usage_status)
Tells request request_id (err e) row =
    (row.tenant_id ≡ request.tenant_id)
    × (row.request_id ≡ request_id)
    × (row.success ≡ false)
    × (row.task_type ≡ request.task_type)
    × (row.input_tokens ≡ none)
    × (row.output_tokens ≡ none)
    × (row.total_tokens ≡ none)

usage_row-Tells :
    (request : AiRequest) (request_id : String) (outcome : Result AiResponse)
    → Tells request request_id outcome (usage_row request request_id outcome)
unfolding calculate_estimated_cost Tells usage_row
usage_row-Tells request request_id (ok response) =
    (refl, refl, refl, refl, refl, refl, refl, refl, refl)
usage_row-Tells request request_id (err e) = (refl, refl, refl, refl, refl, refl, refl)

module _ {W : Type 0} (stores : AiUsage → Result (Unit {0}))
    (provider : AiRequest → String → Action W AiResponse) (now : ℕ) (request : AiRequest)
    (request_id : String) (s : GatewayState W) where
  abbrev limited : Result (Unit {0}) × RateLimiter
  limited = check_rate_limit now request.tenant_id s.limiter

  abbrev asked : Result AiResponse × W
  asked = provider request request_id s.world

  abbrev after : Result AiResponse × GatewayState W
  after = generate stores provider true now request request_id s

  -- How a call ends.
  pub data Recorded : Type 0 where
    over_rate :
        (e : Exception)
        → limited.0 ≡ err e
        → after ≡ (err e, record s { limiter = limited.1 })
        → Recorded
    recorded :
        (row : AiUsage)
        → Tells request request_id asked.0 row
        → limited.0 ≡ ok tt
        → after.0 ≡ asked.0
        → after.1.world ≡ asked.1
        → after.1.limiter ≡ limited.1
        → after.1.usages ≡ s.usages ++ row ∷ []
        → ((e : Exception) → asked.0 ≡ err e → after.1.billing ≡ s.billing)
        → Recorded

  abbrev before_usage : GatewayState W
  before_usage = record s { limiter = limited.1; world = asked.1 }

  generate-usage :
      (s' : GatewayState W)
      → limited.0 ≡ ok tt
      → record_usage stores now request request_id asked.0 before_usage ≡ (ok tt, s')
      → after ≡ (asked.0, s')
  unfolding generate ◌>>◌
  generate-usage s' r u =
      bind_ok _ _ s (record s { limiter = limited.1 }) tt
        (ap (λ (x : Result (Unit {0})). (x, record s { limiter = limited.1 })) r)
      ∙ bind_ok _ _ (record s { limiter = limited.1 }) before_usage asked.0 refl
      ∙ bind_ok _ _ before_usage s' tt u

  generate-over_rate :
      (e : Exception) → limited.0 ≡ err e → after ≡ (err e, record s { limiter = limited.1 })
  unfolding generate ◌>>◌
  generate-over_rate e r =
      bind_err _ _ s (record s { limiter = limited.1 }) e
        (ap (λ (x : Result (Unit {0})). (x, record s { limiter = limited.1 })) r)

  -- With a session that takes any row, a call is over the rate of its tenant, and then only the limiter
  -- changes; or the provider is asked once, its answer or exception is passed on, and one row of usage is
  -- added that names the tenant, the request and its task and says whether it succeeded, with the model,
  -- the numbers of tokens in, out and in all, and the usage status of an answer, and with no tokens after
  -- a failure; a call that failed consumes no credits.
  pub generate-Recorded : ((row : AiUsage) → stores row ≡ ok tt) → Recorded
  generate-Recorded takes = elim (Result-cases limited.0) [
    | inr (e, r) ↦ Recorded.over_rate e r (generate-over_rate e r)
    | inl r ↦
        let u = record_usage-Written stores now request request_id takes asked.0 before_usage in
        let g = generate-usage u.final r u.written in
        Recorded.recorded (usage_row request request_id asked.0)
          (usage_row-Tells request request_id asked.0) r
          (ap (λ (o : Result AiResponse × GatewayState W). o.0) g)
          (ap (λ (o : Result AiResponse × GatewayState W). o.1.world) g ∙ u.same_world)
          (ap (λ (o : Result AiResponse × GatewayState W). o.1.limiter) g ∙ u.same_limiter)
          (ap (λ (o : Result AiResponse × GatewayState W). o.1.usages) g ∙ u.one_row)
          (λ e a. ap (λ (o : Result AiResponse × GatewayState W). o.1.billing) g ∙ u.no_credits e a)
  ]
