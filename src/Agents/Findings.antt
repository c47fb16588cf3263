-- ===== src/Agents/Findings.antt =====
-- app/agents/owner_ai/orchestrator.py: what the results of the agents come to.
use Prim.Native.String.{◌++◌ as concat}
use multi_agent_ai_system.Prelude.{
  String, str_eq, Bool, true, false, none, some, List, [], ◌∷◌, length, if◌then◌else◌,
}
use multi_agent_ai_system.Prelude.Text.{decimal}
use multi_agent_ai_system.Prelude.Json.{str, Items, nil, cons}
use multi_agent_ai_system.Agents.Desk.{Progress, filled}
use multi_agent_ai_system.Agents.Schemas.{
  AgentResult, AgentRequestStatus, completed, partial, failed, status_value,
}

-- `[agent]: finding` of each completed result that has a finding
abbrev pub causes_of : List AgentResult → List String
causes_of [] = []
causes_of (r ∷ rs) =
    let rest = causes_of rs in
    if str_eq (status_value r.status) "COMPLETED"
    then elim (filled r.finding) [
      | none ↦ rest
      | some finding ↦ concat "[" (concat r.agent (concat "]: " finding)) ∷ rest
    ]
    else rest

-- `"; ".join(…)`
abbrev pub join : List String → String
join [] = ""
join (t ∷ []) = t
join (t ∷ u ∷ ts) = concat t (concat "; " (join (u ∷ ts)))

-- Without a cause the whole text is the last one: the conditional binds less than the sum.
abbrev pub findings_summary : List AgentResult → String
findings_summary results = elim (causes_of results) [
  | [] ↦ " No major operational issues identified."
  | t ∷ ts ↦
      concat "Multi-agent investigation completed with "
        (concat (decimal (length results)) (concat " agents called.  Findings: " (join (t ∷ ts))))
]

abbrev pub texts : List String → Items
texts [] = nil
texts (t ∷ ts) = cons (str t) (texts ts)

abbrev pub is_empty : List AgentResult → Bool
is_empty [] = true
is_empty (r ∷ rs) = false

abbrev pub final_status : Progress → AgentRequestStatus
final_status p =
    if p.has_partial_failure
    then if is_empty p.collected_results then failed else partial
    else completed
