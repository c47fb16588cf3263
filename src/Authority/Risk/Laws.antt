-- ===== src/Authority/Risk/Laws.antt =====
-- An action that the policy does not list is never taken for harmless.
use multi_agent_ai_system.Prelude.{
  String, Bool, true, ◌||◌, Bool-cases, Option, none, ◌≡◌, refl, inl, inr, lookup, if◌then◌else◌,
}
use multi_agent_ai_system.Prelude.Json.{Dict, get, is_text}
use multi_agent_ai_system.Authority.Risk.{
  ActionRiskLevel, high, critical, severe, classify, classify_unlisted, clean_action, level_or,
  is_true, action_risk_policy_map,
}

severe-if :
    (b : Bool) (r q : ActionRiskLevel)
    → severe r ≡ true
    → severe q ≡ true
    → severe (if b then r else q) ≡ true
severe-if b r q h k = elim (Bool-cases b) [ inl e ↦ rw e h | inr e ↦ rw e k ]

unlisted_severe : (params : Dict) → severe (classify_unlisted params) ≡ true
unfolding classify_unlisted
unlisted_severe params =
    let b = is_true (get "is_high_risk" params) || is_text "high" (get "financial_impact" params) in
    severe-if (is_true (get "is_critical" params) || is_text "critical" (get "scope" params))
      critical (if b then high else high) refl (severe-if b high high refl refl)

listed_or :
    (o : Option ActionRiskLevel) (q : ActionRiskLevel)
    → o ≡ none
    → severe q ≡ true
    → severe (level_or o q) ≡ true
listed_or none q e h = h
listed_or (Option.some r) q e h = cc

-- An action that is not in the policy map has a high or critical risk, whatever its parameters say.
pub classify-unlisted :
    (action_type : String) (params : Dict)
    → lookup (clean_action action_type) action_risk_policy_map ≡ none
    → severe (classify action_type params) ≡ true
unfolding classify
classify-unlisted action_type params e = listed_or _ _ e (unlisted_severe params)
