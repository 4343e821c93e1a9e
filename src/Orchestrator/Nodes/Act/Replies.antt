-- ===== src/Orchestrator/Nodes/Act/Replies.antt =====
-- What act_node answers to the tool calls of the model.
use agentis_backend.Prelude.{
  ℕ, ◌+◌, ◌≤◌, String, ◌≡◌, Option, none, some, List, ◌++◌, length, map, All,
}
use agentis_backend.Config.{Settings}
use agentis_backend.Json.{Json}
use agentis_backend.Tools.Registry as Tools
use agentis_backend.Tools.Registry.{Registry, Tool, Executed, returned, raised}
use agentis_backend.Orchestrator.State.{AgentState, ToolCall, Message, tool}
use agentis_backend.Orchestrator.Nodes.Run.{Env, RunContext, Update}

-- The call that a message answers.
abbrev pub reply_to : Message → Option String
reply_to (tool s id) = some id
reply_to _ = none

-- The execution raises nothing.
abbrev pub Returns : Executed → Type 0
Returns (returned r) = Unit
Returns (raised e) = ⊥

-- The tool, if there is one, returns when it is called with the arguments, whatever the outside answers.
abbrev pub IsQuiet : Option Tool → Json → Type 0
IsQuiet none args = Unit
IsQuiet (some t) args = (n : ℕ) → Returns (t.execute n args)

-- So it is with the tools of the calls.
abbrev pub AreQuiet : Registry → List ToolCall → Type 0
AreQuiet registry = All (λ c. IsQuiet (Tools.get c.name registry) c.args)

module _ (cfg : Settings) (env : Env) (ctx : RunContext) where
  abbrev Answered : (failures : ℕ) → List Message → List ToolCall → ℕ × List Message → Type 0
  Answered failures before calls (after, messages) =
      (map reply_to messages ≡ map reply_to before ++ map (λ c. some c.id) calls)
      × (failures ≤ after)
      × (after ≤ failures + length calls)

  -- What act_node returns for the tool calls: one reply to each, in their order, and the failures counted.
  pub record Replies (st : AgentState) (calls : List ToolCall) (u : Update) : Type 0 where
    pub replies : List Message
    pub failures : ℕ
    pub messages_set : u.messages ≡ some replies
    pub failures_set : u.failures ≡ some failures
    pub in_order : map reply_to replies ≡ map (λ c. some c.id) calls
    pub at_least : st.failures ≤ failures
    pub at_most : failures ≤ st.failures + length calls
