-- ===== src/Authority/Service/Leaves.antt =====
-- The rules of `ActionAuthorizationService` for what its branches end with, and for their tests.
use multi_agent_ai_system.Prelude.{
  ℕ, String, Bool, true, false, not, ◌&&◌, Option, some, List, ◌≡◌, ◌≢◌, refl, ◌⊎◌, inl, inr, arith,
  eq_iff,
}
use multi_agent_ai_system.Prelude.Json.{Json, str, is_text}
use multi_agent_ai_system.Core.Exceptions.{◌>>=◌, ◌>>◌}
use multi_agent_ai_system.Core.Triples.{Triple}
use multi_agent_ai_system.Platform.Store.{Store}
use multi_agent_ai_system.Authority.Risk.{ActionRiskLevel, low, medium, high, critical}
use multi_agent_ai_system.Authority.Schemas.{
  ActionRequest, AuthorizationDecision, ExecutionDecision, allow, waiting_approval, deny,
}
use multi_agent_ai_system.Authority.Checks.{is_low, is_medium}
use multi_agent_ai_system.Authority.Service.{decide, record_audit_event}

-- A decision that allows only under a condition.
abbrev pub Only : Type 0 → AuthorizationDecision → Store → Type 0
Only C d s = d.decision ≡ allow → C

abbrev pub Any : Store → Type 0
Any s = Unit

pub refused :
    (P : Store → Type 0) (C : Type 0) (db : Bool) (request : ActionRequest) (risk : ActionRiskLevel)
    (hash : String) (decision : ExecutionDecision) (code : String) (id : Option ℕ)
    (needed : List String)
    → decision ≢ allow
    → Triple P (decide db request risk hash decision code id needed) (Only C) Any
unfolding decide record_audit_event ◌>>=◌ ◌>>◌
refused P C true request risk hash decision code id needed differs s p =
    λ same. elim (differs same) [ ]
refused P C false request risk hash decision code id needed differs s p =
    λ same. elim (differs same) [ ]

pub granted :
    (P : Store → Type 0) (C : Type 0) (db : Bool) (request : ActionRequest) (risk : ActionRiskLevel)
    (hash : String) (code : String) (id : Option ℕ) (needed : List String)
    → C
    → Triple P (decide db request risk hash allow code id needed) (Only C) Any
unfolding decide record_audit_event ◌>>=◌ ◌>>◌
granted P C true request risk hash code id needed c s p = λ same. c
granted P C false request risk hash code id needed c s p = λ same. c

pub not_deny : deny ≢ allow
not_deny = ground arith

pub not_waiting : waiting_approval ≢ allow
not_waiting = ground arith

pub bound_text : (hash : String) (j : Json) → is_text hash (some j) ≡ true → j ≡ str hash
bound_text hash (str t) h = rw ((eq_iff t hash).0 h) refl
bound_text hash Json.null h = cc
bound_text hash (Json.boolean b) h = cc
bound_text hash (Json.num n) h = cc
bound_text hash (Json.id_text n) h = cc
bound_text hash (Json.amount_text a) h = cc
bound_text hash (Json.time_text t) h = cc
bound_text hash (Json.arr xs) h = cc
bound_text hash (Json.obj d) h = cc

pub refuted : (b : Bool) → not b ≡ false → b ≡ true
refuted true h = refl
refuted false h = cc

pub owner_checks :
    (a b c : Bool)
    → (a && b) ≡ false
    → (a && not c) ≡ false
    → (a ≡ false) ⊎ ((b ≡ false) × (c ≡ true))
owner_checks true b c h k = inr (h, refuted c k)
owner_checks false b c h k = inl refl

pub either_permitted : (a b : Bool) → (a && not b) ≡ false → (a ≡ false) ⊎ (b ≡ true)
either_permitted true b h = inr (refuted b h)
either_permitted false b h = inl refl

pub low_only : (r : ActionRiskLevel) → is_low r ≡ true → r ≡ low
low_only low h = refl
low_only medium h = cc
low_only high h = cc
low_only critical h = cc

pub medium_only : (r : ActionRiskLevel) → is_medium r ≡ true → r ≡ medium
medium_only medium h = refl
medium_only low h = cc
medium_only high h = cc
medium_only critical h = cc
