-- ===== src/Orchestrator/Nodes/Run.antt =====
-- What the nodes of app/orchestrator/nodes.py share: the run's context and its outside.
use agentis_backend.Prelude.{ℕ, ◌+◌, String, Bool, Option, none, List, [], ◌∷◌}
use agentis_backend.Http.{Exec, Failure, ok, err}
use agentis_backend.Json.{Json, Fields}
use agentis_backend.Tools.Registry.{Registry, ToolSchema}
use agentis_backend.Orchestrator.State.{Plan, ToolCall, Content, Message, ai}
use agentis_backend.Orchestrator.Context.{Tokenizer, count_message_tokens}
use agentis_backend.Orchestrator.Events.{EventStore, Emission, emit}

-- What the language model returns, or the exception that the client raises.
pub data Reply : Type 0 where
  reply : Content → List ToolCall → Reply
  llm_error : Failure → Reply

-- What the nodes use of the libraries and of the outside. The number of a call stands for
-- what the outside has become by then.
pub record Env : Type 0 where
  pub tok : Tokenizer
  pub loads : String → Option Fields
  pub to_float : Json → Option String
  pub dump_plan : Option Plan → String
  pub dump_json : Json → String
  pub llm : (call : ℕ) → List ToolSchema → List Message → Reply
  pub llm_model : Option String
  pub duration : (call : ℕ) → ℕ
  -- langgraph's reducer of the key "messages"
  pub add_messages : List Message → List Message → List Message

-- RunContext
pub record RunContext : Type 0 where
  pub task_id : ℕ
  pub allowed_tools : Option (List String)
  pub memory_block : String
  pub registry : Registry

pub record RunState : Type 0 where
  pub store : EventStore
  pub llm_calls : ℕ
  pub tool_runs : ℕ

-- The dictionary that a node returns; a key that is not there is `none`.
pub record Update : Type 0 where
  pub plan : Option Plan
  pub messages : Option (List Message)
  pub iteration : Option ℕ
  pub scratchpad : Option String
  pub confidence : Option String
  pub failures : Option ℕ
  pub done : Option Bool
  pub reflect_decision : Option Json
  pub result_summary : Option String

abbrev pub no_update : Update
no_update = record {
  plan = none;
  messages = none;
  iteration = none;
  scratchpad = none;
  confidence = none;
  failures = none;
  done = none;
  reflect_decision = none;
  result_summary = none;
}

module _ (ctx : RunContext) where
  -- await ctx.emitter.emit(…)
  unfoldable pub emit_step : Emission → Exec RunState ℕ
  emit_step e s = let (r, store) = emit ctx.task_id e s.store in (r, record s { store = store })

module _ (env : Env) where
  -- await llm.ainvoke(messages), with the tools that are bound
  unfoldable pub ask : List ToolSchema → List Message → Exec RunState (Content × List ToolCall)
  ask tools messages s =
      let after = record s { llm_calls = s.llm_calls + 1 } in
      elim (env.llm s.llm_calls tools messages) [
        | reply c calls ↦ (ok (c, calls), after)
        | llm_error e ↦ (err e, after)
      ]

  abbrev pub tokens_of : Content × List ToolCall → ℕ
  tokens_of r = count_message_tokens env.tok (ai r.0 r.1 ∷ [])
