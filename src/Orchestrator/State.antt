-- ===== src/Orchestrator/State.antt =====
-- app/orchestrator/state.py: plans, messages and the agent's working memory.
use agentis_backend.Prelude.{
  ℕ, suc, ◌+◌, String, Bool, Option, none, List, [], ◌∷◌, str_eq, if◌then◌else◌,
}
use agentis_backend.PyText.{show, ◌⧺◌}
use agentis_backend.Json.{Json}

pub data SubTaskStatus : Type 0 where
  pending in_progress done failed : SubTaskStatus

pub record SubTask : Type 0 where
  pub id : String
  pub description : String
  pub status : SubTaskStatus
  pub result : Option String

pub record Plan : Type 0 where
  pub goal : String
  pub subtasks : List SubTask

-- [SubTask(id=f"s{i+1}", description=d) for i, d in enumerate(descriptions)], from the index `i`
unfoldable pub subtasks_from : ℕ → List String → List SubTask
subtasks_from i [] = []
subtasks_from i (d ∷ ds) =
    record { id = "s" ⧺ show (i + 1); description = d; status = pending; result = none }
    ∷ subtasks_from (suc i) ds

unfoldable pub new_plan : String → List String → Plan
unfolding subtasks_from
new_plan goal descriptions = record { goal = goal; subtasks = subtasks_from 0 descriptions }

-- The body of the loop over the subtasks in `mark_subtask_done`.
unfoldable pub finish : String → Option String → List SubTask → List SubTask
finish id result [] = []
finish id result (st ∷ rest) =
    (if str_eq st.id id then record st { status = done; result = result } else st)
    ∷ finish id result rest

unfoldable pub mark_subtask_done : Plan → String → Option String → Plan
unfolding finish
mark_subtask_done plan id result = record plan { subtasks = finish id result plan.subtasks }

pub record ToolCall : Type 0 where
  pub name : String
  pub args : Json
  pub id : String

-- A chat message's content is a text or, with some providers, a list of blocks, of which the program
-- uses str(content).
pub data Content : Type 0 where
  text : String → Content
  blocks : (repr : String) → Content

abbrev pub as_text : Content → String
as_text (text s) = s
as_text (blocks repr) = repr

pub data Message : Type 0 where
  system : String → Message
  human : String → Message
  ai : Content → List ToolCall → Message
  tool : (content tool_call_id : String) → Message

abbrev pub content_of : Message → String
content_of (system s) = s
content_of (human s) = s
content_of (ai c calls) = as_text c
content_of (tool s id) = s

-- getattr(message, "tool_calls", []) or []
abbrev pub tool_calls_of : Message → List ToolCall
tool_calls_of (ai c calls) = calls
tool_calls_of _ = []

-- An integer of the API, which may be negative: `negsuc n` is -(n + 1).
pub data ℤ : Type 0 where
  pos : ℕ → ℤ
  negsuc : ℕ → ℤ

-- AgentState: the keys that the graph reads or writes.
pub record AgentState : Type 0 where
  pub goal : String
  pub language : String
  pub plan : Option Plan
  pub messages : List Message
  pub scratchpad : String
  pub iteration : ℕ
  pub max_iterations : ℤ
  pub confidence : String
  pub failures : ℕ
  pub partial : Bool
  pub done : Bool
  pub reflect_decision : Option Json
