-- ===== src/Orchestrator/Nodes/Act/Examples.antt =====
-- The theorem about act_node at a concrete input.
use agentis_backend.Prelude.{none, some, false, [], ◌∷◌, ◌++◌}
use agentis_backend.Config.{defaults}
use agentis_backend.Json.{null, obj, end}
use agentis_backend.Tools.Registry as Tools
use agentis_backend.Tools.Registry.{Registry}
use agentis_backend.Tools.Sandboxed.{lost}
use agentis_backend.Tools.WebSearch.{page}
use agentis_backend.Tools.BuiltIn.{
  Network, browser_tool, code_executor_tool, file_system_tool, web_search_tool,
}
use agentis_backend.Orchestrator.State.{AgentState, Message, ai, text, pos}
use agentis_backend.Orchestrator.Nodes.Run.{Env, RunContext, reply}
use agentis_backend.Orchestrator.Nodes.Act.Replies.{Replies}

-- The program's tools, in a sandbox that cannot be reached.
abbrev net : Network
net = record {
  remote = λ n. record {
    post = λ url method params id timeout. lost "ConnectError";
    str_json = λ j. "read";
    int_json = λ j. some (pos 5);
    is_timeout = λ j. false;
  };
  web = λ n. record { get = λ url headers params. page (obj end); int_json = λ j. some (pos 1) };
  endpoint = "http://10.0.0.2:9999";
}

abbrev tools : Registry
tools =
    browser_tool defaults net
    ∷ code_executor_tool defaults net
    ∷ file_system_tool defaults net
    ∷ web_search_tool defaults net
    ∷ []

abbrev env : Env
env = record {
  tok = record { encode = λ s. []; decode = λ ts. "" };
  loads = λ s. none;
  to_float = λ j. none;
  dump_plan = λ p. "{}";
  dump_json = λ j. "{}";
  llm = λ n tools ms. reply (text "ok") [];
  llm_model = none;
  duration = λ n. 0;
  add_messages = λ old new. old ++ new;
}

abbrev ctx : RunContext
ctx = record { task_id = 7; allowed_tools = none; memory_block = ""; registry = tools }

-- One call of a tool that is there, and one of a tool that is not.
abbrev asking : Message
asking = ai (text "") (
    record { name = "file_system"; args = obj end; id = "c1" }
    ∷ record { name = "compass"; args = null; id = "c2" }
    ∷ [])

abbrev state : AgentState
state = record {
  goal = "read the notes";
  language = "en";
  plan = none;
  messages = asking ∷ [];
  scratchpad = "";
  iteration = 0;
  max_iterations = pos 3;
  confidence = "0.0";
  failures = 0;
  partial = false;
  done = false;
  reflect_decision = none;
}
