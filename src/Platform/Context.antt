-- ===== src/Platform/Context.antt =====
-- app/core/context.py: the authenticated actor of a request.
use multi_agent_ai_system.Prelude.{ℕ, String, Bool, Option, List}

-- The permissions are a set, of which the program only asks for members.
pub record AuthenticatedActor : Type 0 where
  pub user_id : Option ℕ
  pub tenant_id : Option ℕ
  pub role : String
  pub permissions : List String
  pub is_platform_owner : Bool
