-- ===== src/Approvals/Tests.antt =====
-- A refund that waits for its approval.
use multi_agent_ai_system.Prelude.{String, true, Option, none, some, [], ◌∷◌}
use multi_agent_ai_system.Prelude.Json.{Dict}
use multi_agent_ai_system.Core.Exceptions.{Action, pure}
use multi_agent_ai_system.Billing.Models.{Approval}
use multi_agent_ai_system.Platform.Context.{AuthenticatedActor}
use multi_agent_ai_system.Platform.Store.{Store}
use multi_agent_ai_system.Platform.Samples.{store, staff, approval}
use multi_agent_ai_system.Approvals.{approved_row}

abbrev owner : Option AuthenticatedActor
owner = some (record staff { is_platform_owner = true })

abbrev digest : Dict → String
digest d = "h"

abbrev resume : Approval → Option Dict → Action Store (Unit {0})
resume a params = pure tt

abbrev pending : Approval
pending = record approval { status = "PENDING"; meta_data = none }

abbrev pending_store : Store
pending_store = store "ACTIVE" [] (pending ∷ [])

abbrev approved : Approval
approved = approved_row owner digest resume 5 pending "4" none
