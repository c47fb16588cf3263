-- ===== src/Billing/Subscription/Audited.antt =====
-- What each method of `SubscriptionService` does to the audit trail.
use multi_agent_ai_system.Prelude.{
  ℕ, String, str_eq, not, Option, none, some, List, [], ◌∷◌, ◌≡◌, refl, inl, inr, All, ◌==◌,
  All-select, arith,
}
use multi_agent_ai_system.Prelude.Int.{ℤ}
use multi_agent_ai_system.Core.Exceptions.{
  Exception, Result, ok, err, Result-cases, pure, lift, or_raise, scalar_one_or_none, ◌>>=◌, ◌>>◌,
}
use multi_agent_ai_system.Core.Triples.{Holds, Triple, bind_rule, either_rule}
use multi_agent_ai_system.Billing.Models.{Subscription, SubscriptionHistory}
use multi_agent_ai_system.Prelude.Json.{Dict}
use multi_agent_ai_system.Billing.Session.{Session, save_subscription, publish_billing_event}
use multi_agent_ai_system.Billing.Status.{validate_subscription_transition}
use multi_agent_ai_system.Billing.Subscription.Lookup.{
  get_subscription_or_none, get_subscription, subscription_not_found,
  transition_subscription_status,
}
use multi_agent_ai_system.Billing.Subscription.Trial.{
  check_and_update_trial_expiration, trial_is_over,
}
use multi_agent_ai_system.Billing.Subscription.Ending.{
  cancel_subscription, update_payment_failure_status, failure_target, failure_stamps,
}
use multi_agent_ai_system.Billing.Subscription.Audit.{
  IsLogged, Audit, save-IsAudited, move-IsAudited, move-IsLogged,
}

-- A subscription that a call has read or saved: the session may go on from it.
pub record Known (r : Subscription) (s : Session) : Type 0 where
  pub audit : Audit s
  pub logged : IsLogged s.view.histories s.next_id r

abbrev pub KnownOr : Option Subscription → Session → Type 0
KnownOr none s = Audit s
KnownOr (some r) s = Known r s

row_read :
    (xs : List Subscription) (s : Session)
    → Audit s
    → All (IsLogged s.view.histories s.next_id) xs
    → Holds KnownOr Audit (scalar_one_or_none xs s)
row_read [] s a l = a
row_read (x ∷ []) s a l = record { audit = a; logged = l.0 }
row_read (x ∷ y ∷ xs) s a l = a

pub get_subscription_or_none-Known :
    (tenant_id : ℕ) → Triple Audit (get_subscription_or_none tenant_id) KnownOr Audit
unfolding get_subscription_or_none
get_subscription_or_none-Known tenant_id s a =
    row_read _ s a
      (All-select _ (λ r. r.tenant_id == tenant_id) s.view.subscriptions a.view_ok.logged)

found_or_raise :
    (o : Option Subscription) (e : Exception) → Triple (KnownOr o) (or_raise o e) Known Audit
found_or_raise none e s a = a
found_or_raise (some r) e s k = k

pub get_subscription-Known : (tenant_id : ℕ) → Triple Audit (get_subscription tenant_id) Known Audit
unfolding get_subscription
get_subscription-Known tenant_id =
    bind_rule Audit KnownOr Known Audit _ _ (get_subscription_or_none-Known tenant_id)
      λ o. found_or_raise o subscription_not_found

-- The one method that moves a status keeps the trail, and the subscription it returns is known.
pub transition_subscription_status-Known :
    (sub : Subscription) (target_status actor : String) (reason : Option String)
    → Triple (Known sub) (transition_subscription_status sub target_status actor reason) Known Audit
unfolding transition_subscription_status ◌>>=◌ ◌>>◌
transition_subscription_status-Known sub target_status actor reason s k =
    let moved : Subscription = record sub { status = target_status } in
    let h : SubscriptionHistory = record {
      subscription_id = sub.id;
      tenant_id = sub.tenant_id;
      previous_plan_id = some sub.plan_id;
      new_plan_id = some sub.plan_id;
      previous_status = some sub.status;
      new_status = target_status;
      actor = actor;
      reason = reason;
    } in
    let hs = s.view.histories in
    let subs = s.view.subscriptions in
    elim (Result-cases (validate_subscription_transition sub.status target_status)) [
      | inl fine ↦ rw fine (record {
        audit = record {
          view_ok =
              move-IsAudited hs s.next_id moved h subs refl refl fine k.audit.view_ok k.logged.1;
          stored_ok = k.audit.stored_ok;
        };
        logged = move-IsLogged hs s.next_id moved h subs refl refl fine k.logged.1;
      })
      | inr (e, refused) ↦ rw refused k.audit
    ]

-- Saving a known subscription whose identifier and status are as they were.
pub save_subscription-Known :
    (sub changed : Subscription)
    → changed.id ≡ sub.id
    → changed.status ≡ sub.status
    → Triple (Known sub) (save_subscription changed) (λ _. Known changed) Audit
save_subscription-Known sub changed same_id same_status s k =
    let logged : IsLogged s.view.histories s.next_id changed =
      (rw (same_id, same_status) k.logged.0, omega arith) in
    record {
      audit = record {
        view_ok = save-IsAudited _ _ changed _ k.audit.view_ok logged;
        stored_ok = k.audit.stored_ok;
      };
      logged = logged;
    }

-- An event leaves the database as it is.
pub publish_billing_event-Known :
    (sub : Subscription) (event_type : String) (tenant_id : ℕ) (payload : Dict) (source : String)
    → Triple
        (Known sub)
        (publish_billing_event event_type tenant_id payload source)
        (λ _. Known sub)
        Audit
publish_billing_event-Known sub event_type tenant_id payload source s k = record {
  audit = record { view_ok = k.audit.view_ok; stored_ok = k.audit.stored_ok };
  logged = k.logged;
}

pub lift-Known :
    (sub : Subscription) (r : Result (Unit {0}))
    → Triple (Known sub) (lift r) (λ _. Known sub) Audit
lift-Known sub (ok _) s k = k
lift-Known sub (err e) s k = k.audit

-- Cancelling keeps the audit trail.
pub cancel_subscription-Audit :
    (now tenant_id : ℕ) (reason : Option String) (actor : String)
    → Triple Audit (cancel_subscription now tenant_id reason actor) Known Audit
unfolding cancel_subscription ◌>>◌
cancel_subscription-Audit now tenant_id reason actor =
    bind_rule Audit Known Known Audit _ _ (get_subscription-Known tenant_id) λ sub.
      bind_rule (Known sub) (λ _. Known sub) Known Audit _ _ (lift-Known sub _)
        λ _.
          bind_rule (Known sub) (λ _. Known _) Known Audit _ _
            (save_subscription-Known sub _ refl refl)
            λ _.
              bind_rule (Known _) Known Known Audit _ _
                (transition_subscription_status-Known _ _ actor _)
                λ moved.
                  bind_rule (Known moved) (λ _. Known moved) Known Audit _ _
                    (publish_billing_event-Known moved _ _ _ _) λ _ s k. k

stamps-id : (now : ℕ) (d : ℤ) (sub : Subscription) → (failure_stamps now d sub).id ≡ sub.id
stamps-id now d sub = ground arith

stamps-status :
    (now : ℕ) (d : ℤ) (sub : Subscription) → (failure_stamps now d sub).status ≡ sub.status
stamps-status now d sub = ground arith

-- Applying the failure policy keeps the audit trail.
pub update_payment_failure_status-Audit :
    (now tenant_id : ℕ) (days_past_due : ℤ)
    → Triple Audit (update_payment_failure_status now tenant_id days_past_due) Known Audit
unfolding update_payment_failure_status ◌>>◌
update_payment_failure_status-Audit now tenant_id d =
    bind_rule Audit Known Known Audit _ _ (get_subscription-Known tenant_id) λ sub.
      let stamped = failure_stamps now d sub in
      bind_rule (Known sub) (λ _. Known stamped) Known Audit _ _
        (save_subscription-Known sub stamped (stamps-id now d sub) (stamps-status now d sub))
        λ _.
          either_rule (Known stamped) Known Audit
            (not (str_eq (failure_target d sub.status) sub.status))
            (transition_subscription_status stamped (failure_target d sub.status) "SYSTEM" _)
            (pure stamped) (transition_subscription_status-Known stamped _ _ _) λ s k. k

-- Looking at the end of a trial keeps the audit trail.
pub check_and_update_trial_expiration-Audit :
    (now tenant_id : ℕ) → Triple Audit (check_and_update_trial_expiration now tenant_id) Known Audit
unfolding check_and_update_trial_expiration
check_and_update_trial_expiration-Audit now tenant_id =
    bind_rule Audit Known Known Audit _ _ (get_subscription-Known tenant_id) λ sub.
      either_rule (Known sub) Known Audit (trial_is_over now sub)
        (transition_subscription_status sub "EXPIRED" "SYSTEM" _) (pure sub)
        (transition_subscription_status-Known sub _ _ _) λ s k. k
