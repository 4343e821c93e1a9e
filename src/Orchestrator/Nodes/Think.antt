-- ===== src/Orchestrator/Nodes/Think.antt =====
-- app/orchestrator/nodes.py: plan_node and think_node.
use agentis_backend.Prelude.{
  ℕ, ◌+◌, String, not, Option, none, some, List, [], ◌∷◌, ◌++◌, length, ltb, if◌then◌else◌,
}
use agentis_backend.PyText.{◌⧺◌}
use agentis_backend.Config.{Settings}
use agentis_backend.Http.{Exec, pure, fail, ◌>>=◌, ◌>>◌}
use agentis_backend.Json.{Json, nil, extract_json, or_empty, get_or, truthy, iterate}
use agentis_backend.Tools.Registry.{build_tool_schemas}
use agentis_backend.Orchestrator.State.{
  AgentState, Plan, as_text, Message, system, human, ai, new_plan,
}
use agentis_backend.Orchestrator.Context.{
  count_message_tokens, needs_summarization, summary_prompt, with_summary, tokens_freed,
}
use agentis_backend.Orchestrator.Events.{
  plan, freed, thought, plan_update, context_summarized, think,
}
use agentis_backend.Orchestrator.Prompts.{system_with_language, plan_system, think_system}
use agentis_backend.Orchestrator.Nodes.Run.{
  Env, RunContext, RunState, Update, no_update, emit_step, ask, tokens_of,
}

module _ (cfg : Settings) (env : Env) (ctx : RunContext) where
  -- The strings among the descriptions; SubTask refuses any other value (ValidationError).
  abbrev pub strings : List Json → Option (List String)
  strings [] = some []
  strings (Json.str s ∷ rest) = elim (strings rest) [ none ↦ none | some l ↦ some (s ∷ l) ]
  strings (_ ∷ rest) = none

  abbrev pub strings_of : Option (List Json) → Option (List String)
  strings_of none = none
  strings_of (some values) = strings values

  -- new_plan over the descriptions that the model wrote.
  unfoldable pub plan_of :
      String → (values : Option (List Json)) → Option (List String) → Exec RunState Plan
  unfolding new_plan
  plan_of goal none ds = fail "TypeError"
  plan_of goal (some values) none = fail "ValidationError"
  plan_of goal (some values) (some ds) = pure (new_plan goal ds)

  -- `if not descriptions: descriptions = [goal]`, and then the plan
  unfoldable pub plan_from : String → Json → Exec RunState Plan
  unfolding new_plan plan_of
  plan_from goal descriptions =
      if not (truthy descriptions)
      then pure (new_plan goal (goal ∷ []))
      else plan_of goal (iterate descriptions) (strings_of (iterate descriptions))

  unfoldable pub plan_node : AgentState → Exec RunState Update
  unfolding emit_step ask plan_from
  plan_node st = do
    let sys = system_with_language plan_system st.language ctx.memory_block
    resp ← ask env [] (system sys ∷ human st.goal ∷ [])
    let parsed = or_empty (extract_json env.loads (as_text resp.0))
    p ← plan_from st.goal (get_or "subtasks" (Json.arr nil) parsed)
    emit_step ctx (record {
      step_type = plan_update;
      content = plan p;
      tokens_used = tokens_of env resp;
      duration_ms = none;
      sse_type = some "plan_created";
    })
    pure (record no_update {
      plan = some p;
      iteration = some 0;
      messages = some (system sys ∷ human st.goal ∷ []);
    })

  -- summarize_messages, when there are at least four
  unfoldable pub summarize_messages : List Message → Exec RunState (List Message × ℕ)
  unfolding ask
  summarize_messages messages = if ltb (length messages) 4 then pure (messages, 0) else do
    resp ← ask env [] (summary_prompt messages)
    pure (with_summary (as_text resp.0) messages, tokens_freed env.tok messages)

  abbrev model_name : String
  model_name = elim env.llm_model [ none ↦ cfg.llm_model | some m ↦ m ]

  -- The part of think_node that makes room in the context window.
  unfoldable pub make_room : List Message → Exec RunState (List Message × ℕ)
  unfolding summarize_messages emit_step
  make_room messages =
      if needs_summarization (count_message_tokens env.tok messages) model_name none
        cfg.context_budget.0 cfg.context_budget.1
      then (do
        shorter ← summarize_messages messages
        emit_step ctx (record {
          step_type = context_summarized;
          content = freed shorter.1;
          tokens_used = 0;
          duration_ms = none;
          sse_type = none;
        })
        pure shorter)
      else pure (messages, 0)

  unfoldable pub think_node : AgentState → Exec RunState Update
  unfolding make_room ask emit_step
  think_node st = do
    let schemas = build_tool_schemas ctx.registry ctx.allowed_tools
    let sys = system_with_language think_system st.language ctx.memory_block
    let plan_msg = human ("Current plan: " ⧺ env.dump_plan st.plan)
    room ← make_room st.messages
    resp ← ask env schemas (system sys ∷ plan_msg ∷ room.0)
    emit_step ctx (record {
      step_type = think;
      content = thought (as_text resp.0) (tokens_of env resp);
      tokens_used = tokens_of env resp;
      duration_ms = none;
      sse_type = none;
    })
    let answer = ai resp.0 resp.1
    pure (record no_update {
      messages = some (if ltb 0 room.1 then room.0 ++ answer ∷ [] else answer ∷ []);
      iteration = some (st.iteration + 1);
    })
