-- ===== src/Authority/Schemas/Laws.antt =====
-- What the hash of an action does not look at.
use multi_agent_ai_system.Prelude.{
  ℕ, String, str_eq, eq_iff, false, Bool-cases, ◌≡◌, refl, inl, inr,
}
use multi_agent_ai_system.Prelude.Json.{Json, Dict, end, entry, put}
use multi_agent_ai_system.Authority.Schemas.{is_bound, serializable_params, compute_hash}

serializable-put :
    (k : String) (v : Json) (d : Dict)
    → is_bound k ≡ false
    → serializable_params (put k v d) ≡ serializable_params d
serializable-put k v end h = rw h refl
serializable-put k v (entry j w d) h = elim (Bool-cases (str_eq k j)) [
  | inl same ↦
      let e : k ≡ j = (eq_iff k j).0 same in
      let f : is_bound j ≡ false = rw (← e) h in rw (same, f) refl
  | inr differ ↦ rw (differ, serializable-put k v d h) refl
]

-- Writing a parameter whose key begins with `_`, or is `approval_id`, leaves the hash of an action as
-- it was.
pub compute_hash-put :
    (digest : Dict → String) (action_type target : String) (tenant_id : ℕ) (k : String) (v : Json)
    (params : Dict)
    → is_bound k ≡ false
    → compute_hash digest action_type target tenant_id (put k v params)
      ≡ compute_hash digest action_type target tenant_id params
unfolding compute_hash
compute_hash-put digest action_type target tenant_id k v params h =
    rw (serializable-put k v params h) refl
