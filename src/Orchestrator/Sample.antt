-- ===== src/Orchestrator/Sample.antt =====
-- Small inputs for the tests of the runs: a model, what a run calls outside, and a world with one task.
use agentis_backend.Prelude.{none, some, [], ◌∷◌, ◌++◌}
use agentis_backend.Json.{Json}
use agentis_backend.Orchestrator.State.{text, ToolCall}
use agentis_backend.Orchestrator.Nodes.{Env, RunState, reply}
use agentis_backend.Http.{ok}
use agentis_backend.Memory.{no_memory}
use agentis_backend.Sandbox.Sample.{docker}
use agentis_backend.Tasks.Model.{submitted}
use agentis_backend.Tasks.Sample.{task}
use agentis_backend.Orchestrator.World.{World, Outside}

abbrev pub search_call : ToolCall
search_call = record { name = "web_search"; args = Json.null; id = "c1" }

-- A model that always asks for a tool, which is not there.
abbrev pub env : Env
env = record {
  tok = record { encode = λ s. []; decode = λ ts. "" };
  loads = λ s. none;
  to_float = λ j. some "0.5";
  dump_plan = λ p. "{}";
  dump_json = λ j. "{}";
  llm = λ n tools ms. reply (text "ok") (search_call ∷ []);
  llm_model = none;
  duration = λ n. 0;
  add_messages = λ old new. old ++ new;
}

abbrev pub start : RunState
start = record { store = record { steps = []; published = [] }; llm_calls = 0; tool_runs = 0 }

abbrev pub outside : Outside
outside = record {
  env = env;
  docker = docker;
  lower = λ s. s;
  construct = λ m. ok tt;
  str_error = λ e. "failed";
  postgres = record {
    with_scheme = λ scheme url. url;
    enter = λ pool. ok tt;
    setup = λ pool. ok tt;
  };
  undeclared = λ s. none;
  started = 300;
  ended = 400;
}

abbrev pub world : World
world = record {
  tasks = task 7 1 submitted ∷ [];
  users = [];
  run = start;
  memory = λ u. no_memory;
  sandboxes = record { sessions = []; containers = [] };
}
