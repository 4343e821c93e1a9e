-- ===== src/Orchestrator/Nodes/Act.antt =====
-- app/orchestrator/nodes.py: act_node and observe_node.
pub mod Replies
mod Examples
use agentis_backend.Prelude.{
  ℕ, ◌+◌, ◌-◌, String, Bool, true, not, Option, none, some, List, [], ◌∷◌, ◌++◌, length, drop,
  if◌then◌else◌,
}
use agentis_backend.PyText.{strip, ◌⧺◌}
use agentis_backend.Config.{Settings}
use agentis_backend.Http.{Exec, ok, err, pure, fail, gets, ◌>>=◌, ◌>>◌}
use agentis_backend.Json.{Json}
use agentis_backend.Tools.Registry as Tools
use agentis_backend.Tools.Registry.{
  Registry, ToolSchema, ToolResult, Executed, returned, raised, build_tool_schemas,
}
use agentis_backend.Orchestrator.State.{AgentState, ToolCall, Message, tool, tool_calls_of}
use agentis_backend.Orchestrator.Context.{truncate_tool_output, join_lines}
use agentis_backend.Orchestrator.Events.{call, outcome, tool_call, tool_result}
use agentis_backend.Orchestrator.Nodes.Run.{Env, RunContext, RunState, Update, no_update, emit_step}

module _ (cfg : Settings) (env : Env) (ctx : RunContext) where
  abbrev error_text : Option String → String
  error_text none = "None"
  error_text (some e) = e

  abbrev error_value : Option String → Json
  error_value none = Json.null
  error_value (some e) = Json.str e

  abbrev pub result_text : ToolResult → String
  result_text r =
      if r.ok
      then truncate_tool_output env.tok (env.dump_json r.data_value) cfg.tool_output_max_tokens
      else "Error: " ⧺ error_text r.error

  -- tool.execute(args, session): one more run of a tool
  unfoldable pub run_tool : Tools.Tool → Json → Exec RunState ToolResult
  run_tool t args s =
      let after = record s { tool_runs = s.tool_runs + 1 } in
      elim (t.execute s.tool_runs args) [ returned r ↦ (ok r, after) | raised e ↦ (err e, after) ]

  -- The text of the ToolMessage for one call, and whether the call failed.
  unfoldable pub dispatch : ToolCall → Option Tools.Tool → Exec RunState (String × Bool)
  unfolding run_tool emit_step
  dispatch c none = pure ("Error: tool '" ⧺ c.name ⧺ "' is not available.", true)
  dispatch c (some t) = do
    r ← run_tool t c.args
    runs ← gets (λ s. s.tool_runs)
    emit_step ctx (record {
      step_type = tool_result;
      content = outcome c.name (if r.ok then r.data_value else error_value r.error) c.id r.ok;
      tokens_used = 0;
      duration_ms = some (env.duration runs);
      sse_type = none;
    })
    pure (result_text r, not r.ok)

  -- The loop of act_node, with its two variables.
  unfoldable pub run_calls :
      List ToolCall → (failures : ℕ) → (messages : List Message) → Exec RunState (ℕ × List Message)
  unfolding dispatch Tools.get
  run_calls [] failures messages = pure (failures, messages)
  run_calls (c ∷ rest) failures messages = do
    emit_step ctx (record {
      step_type = tool_call;
      content = call c.name c.args c.id;
      tokens_used = 0;
      duration_ms = none;
      sse_type = none;
    })
    r ← dispatch c (Tools.get c.name ctx.registry)
    run_calls rest (if r.1 then failures + 1 else failures) (messages ++ tool r.0 c.id ∷ [])

  -- state["messages"][-1]; `none` is an IndexError
  abbrev pub last_message : List Message → Option Message
  last_message [] = none
  last_message (m ∷ []) = some m
  last_message (m ∷ n ∷ rest) = last_message (n ∷ rest)

  -- The tool calls of the last message, if there is one.
  unfoldable pub act_on : AgentState → Option Message → Exec RunState Update
  unfolding run_calls
  act_on st none = fail "IndexError"
  act_on st (some m) = do
    r ← run_calls (tool_calls_of m) st.failures []
    pure (record no_update { messages = some r.1; failures = some r.0 })

  unfoldable pub act_node : AgentState → Exec RunState Update
  unfolding act_on
  act_node st = act_on st (last_message st.messages)

  abbrev tool_outputs : List Message → List String
  tool_outputs [] = []
  tool_outputs (tool s id ∷ rest) = s ∷ tool_outputs rest
  tool_outputs (_ ∷ rest) = tool_outputs rest

  unfoldable pub observe_node : AgentState → Exec RunState Update
  unfolding join_lines strip
  observe_node st =
      let recent = drop (length st.messages - 5) st.messages in
      let additions = join_lines (tool_outputs recent) in
      pure (record no_update { scratchpad = some (strip (st.scratchpad ⧺ "\n" ⧺ additions)) })
