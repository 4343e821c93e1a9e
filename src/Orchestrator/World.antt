-- ===== src/Orchestrator/World.antt =====
-- app/orchestrator/runner.py: what a run of a task changes and what it calls, and its statuses, sums and first
-- state.
use agentis_backend.Prelude.{
  ℕ, ◌+◌, String, Bool, false, Option, none, some, List, [], ◌∷◌, ◌==◌, if◌then◌else◌, count,
  update_where, min,
}
use agentis_backend.Config.{Settings}
use agentis_backend.Http.{Failure, Result}
use agentis_backend.Auth.Model.{User}
use agentis_backend.Memory.{ShortTermMemory}
use agentis_backend.Sandbox.{Docker, Manager}
use agentis_backend.Tasks.Model.{Task, TaskStatus}
use agentis_backend.Orchestrator.State.{AgentState, ℤ, pos, negsuc}
use agentis_backend.Orchestrator.Events.{TaskStep, of_task}
use agentis_backend.Orchestrator.Nodes.{Env, RunState}
use agentis_backend.Orchestrator.Llm.{ChatModel}
use agentis_backend.Orchestrator.Checkpointer.{Postgres}

-- What a run changes.
pub record World : Type 0 where
  pub tasks : List Task
  pub users : List User
  pub run : RunState
  pub memory : ShortTermMemory
  pub sandboxes : Manager

-- What a run calls outside: docker, str.lower, PostgreSQL's client for the checkpoints, the constructor of
-- the model's client, str of an exception, langgraph's treatment of a key that the state does not declare,
-- and the clock when the run starts and ends.
pub record Outside : Type 0 where
  pub env : Env
  pub docker : Docker
  pub lower : String → String
  pub postgres : Postgres
  pub construct : ChatModel → Result (Unit {0})
  pub str_error : Failure → String
  pub undeclared : Option String → Option String
  pub started : ℕ
  pub ended : ℕ

-- final_state["result_summary"], empty if it is not there, and final_state["partial"].
pub record Final : Type 0 where
  pub summary : String
  pub partial : Bool

-- _set_status, with the fields that go with the status
abbrev pub set_status : ℕ → TaskStatus → (Task → Task) → World → World
set_status id status fields w = record w {
  tasks = update_where (λ t. t.id == id) (λ t. fields (record t { status = status })) w.tasks;
}

-- _sum_task_tokens
unfoldable pub sum_task_tokens : ℕ → List TaskStep → ℕ
sum_task_tokens id [] = 0
sum_task_tokens id (s ∷ rest) =
    (if of_task id s then s.tokens_used else 0) + sum_task_tokens id rest

-- _count_task_steps
unfoldable pub count_task_steps : ℕ → List TaskStep → ℕ
count_task_steps id = count (of_task id)

-- min(task.max_iterations, settings.max_iterations_cap)
unfoldable pub capped : Settings → ℤ → ℤ
capped cfg (pos n) = pos (min n cfg.max_iterations_cap)
capped cfg (negsuc n) = negsuc n

abbrev pub initial : Settings → Task → AgentState
initial cfg t = record {
  goal = t.goal;
  language = t.language;
  plan = none;
  messages = [];
  scratchpad = "";
  iteration = 0;
  max_iterations = capped cfg t.max_iterations;
  confidence = "0.0";
  failures = 0;
  partial = false;
  done = false;
  reflect_decision = none;
}

abbrev pub summary_of : Option String → String
summary_of none = ""
summary_of (some s) = s
