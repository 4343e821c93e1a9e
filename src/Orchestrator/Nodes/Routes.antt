-- ===== src/Orchestrator/Nodes/Routes.antt =====
-- app/orchestrator/nodes.py: the routers of the graph's conditional edges.
use agentis_backend.Prelude.{ℕ, Bool, true, false, none, some, List, [], ◌∷◌, leb, if◌then◌else◌}
use agentis_backend.Config.{Settings}
use agentis_backend.Json.{is_text}
use agentis_backend.Orchestrator.State.{AgentState, Message, tool_calls_of, ℤ, pos, negsuc}

-- iteration >= max_iterations
abbrev pub at_limit : ℕ → ℤ → Bool
at_limit i (pos n) = leb n i
at_limit i (negsuc n) = true

pub data Route : Type 0 where
  to_act to_report to_think : Route

abbrev pub has_calls : List Message → Bool
has_calls [] = false
has_calls (m ∷ []) = elim (tool_calls_of m) [ [] ↦ false | c ∷ rest ↦ true ]
has_calls (m ∷ n ∷ rest) = has_calls (n ∷ rest)

-- The last message is there: think_node has just appended one.
unfoldable pub route_after_think : Settings → AgentState → Route
route_after_think cfg st =
    if at_limit st.iteration st.max_iterations
    then to_report
    else if leb cfg.max_total_failures st.failures
    then to_report
    else if has_calls st.messages
    then to_act
    else to_report

unfoldable pub route_after_reflect : AgentState → Route
route_after_reflect st =
    let decided : Bool = elim st.reflect_decision [ none ↦ false | some d ↦ is_text d "report" ] in
    if decided
    then to_report
    else if at_limit st.iteration st.max_iterations
    then to_report
    else to_think
