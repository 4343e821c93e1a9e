-- ===== src/Orchestrator/Runner.antt =====
-- app/orchestrator/runner.py: one run of a task, from its sandbox to its final status. The theorems are in the
-- modules below.
pub mod Ending
pub mod Steps
pub mod Rows
pub mod Cleanup
pub mod Charges
use agentis_backend.Prelude.{
  ℕ, zero, suc, ◌+◌, String, Bool, true, false, Option, none, some, List, [], ◌∷◌, ◌==◌,
  if◌then◌else◌, or_else, find, count, update_where, min,
}
use agentis_backend.PyText.{is_empty, take_chars}
use agentis_backend.Config.{Settings}
use agentis_backend.Http.{Failure, Result, ok, err, crash, budget_exceeded, Exec}
use agentis_backend.Auth.Model.{User}
use agentis_backend.Memory.{ShortTermMemory, build_context_block, store_task_summary}
use agentis_backend.Sandbox.{Docker, Manager, SandboxSession, create_session, destroy_session}
use agentis_backend.Tools.Registry.{Registry}
use agentis_backend.Tasks.Model.{
  Task, TaskStatus, planning, running, completed, failed, is_terminal,
}
use agentis_backend.Orchestrator.State.{AgentState, ℤ, pos, negsuc}
use agentis_backend.Orchestrator.Events.{
  EventStore, TaskStep, Emission, emit, failure, report, of_task,
}
use agentis_backend.Orchestrator.Nodes.{Env, RunContext, RunState, Update, report_node}
use agentis_backend.Orchestrator.Llm.{ChatModel, build_llm}
use agentis_backend.Orchestrator.Budget.{record_usage}
use agentis_backend.Orchestrator.Checkpointer.{checkpointer_context}
use agentis_backend.Orchestrator.Graph as Graph
use agentis_backend.Orchestrator.Graph.{
  Values, Outcome, finished, node_failed, recursion_error, recursion_limit, invoke,
}
use agentis_backend.Orchestrator.World.{
  World, Outside, Final, set_status, sum_task_tokens, count_task_steps, initial, summary_of,
}

module _ (cfg : Settings) (out : Outside) (registry : Registry) where
  abbrev pub context : Task → World → RunContext
  context t w = record {
    task_id = t.id;
    allowed_tools = t.allowed_tools;
    memory_block = build_context_block out.env.tok t.user_id 500 w.memory;
    registry = registry;
  }

  abbrev client_of : Result ChatModel → Result (Unit {0})
  client_of (err e) = err e
  client_of (ok m) = out.construct m

  -- build_llm() without arguments
  unfoldable pub built_llm : Result (Unit {0})
  built_llm = client_of (
      build_llm cfg out.lower (record {
        provider = none;
        model = none;
        api_key = none;
        base_url = none;
        timeout_s = none;
      }))

  -- _partial_report: the report node alone, after the budget is spent
  abbrev pub reported : Result Update × RunState → Result Final × RunState
  reported (err e, s) = (err e, s)
  reported (ok u, s) = (ok (record { summary = summary_of u.result_summary; partial = true }), s)

  unfoldable pub partial_report : RunContext → AgentState → RunState → Result Final × RunState
  partial_report ctx st s = reported (report_node cfg out.env ctx (record st { partial = true }) s)

  abbrev pub graph_result : RunContext → AgentState → Outcome × RunState → Result Final × RunState
  graph_result ctx st (finished v, s) =
      (ok (record { summary = summary_of v.result_summary; partial = v.state.partial }), s)
  graph_result ctx st (node_failed (budget_exceeded scope), s) = partial_report ctx st s
  graph_result ctx st (node_failed e, s) = (err e, s)
  graph_result ctx st (recursion_error, s) = (err (crash "GraphRecursionError"), s)

  -- The graph, from the planner on.
  unfoldable pub run_graph : RunContext → AgentState → RunState → Result Final × RunState
  run_graph ctx st s = graph_result ctx st (
      invoke cfg out.env ctx out.undeclared (recursion_limit st.max_iterations) Graph.plan
        (record { state = st; result_summary = none }) s)

  -- The fields that are set with the status "completed".
  abbrev pub result_fields : Final → (tokens steps : ℕ) → Task → Task
  result_fields final tokens steps u = record u {
    result_summary = some final.summary;
    partial = final.partial;
    total_tokens = tokens;
    total_steps = steps;
    completed_at = some out.ended;
  }

  abbrev pub remember : Task → String → World → World
  remember t summary w =
      if is_empty summary
      then w
      else record w { memory = store_task_summary t.user_id (take_chars 400 summary) w.memory }

  -- The end of a run that produced a result: its usage, its status and its summary are stored.
  unfoldable pub complete : Task → Final → World → World
  complete t final w =
      let tokens = sum_task_tokens t.id w.run.store.steps in
      let steps = count_task_steps t.id w.run.store.steps in
      remember t final.summary (
        set_status t.id completed (result_fields final tokens steps)
          (record w { users = record_usage t.user_id tokens w.users }))

  -- The fields that are set with the status "failed".
  abbrev pub error_fields : Failure → Task → Task
  error_fields e u = record u {
    error_message = some (take_chars 1000 (out.str_error e));
    error_code = some "agent_error";
    completed_at = some out.ended;
  }

  -- What follows the announcement of a failure, unless that failed too.
  abbrev pub failed_with : Task → Failure → Result ℕ × EventStore → World → World
  failed_with t e (err lost, store) w = record w { run = record w.run { store = store } }
  failed_with t e (ok number, store) w =
      set_status t.id failed (error_fields e) (record w { run = record w.run { store = store } })

  abbrev pub task_failed : Failure → Emission
  task_failed e = record {
    step_type = report;
    content = failure (out.str_error e) "agent_error" false;
    tokens_used = 0;
    duration_ms = none;
    sse_type = some "task_failed";
  }

  -- The exception handler: the failure is announced and stored.
  unfoldable pub fail_task : Task → Failure → World → World
  fail_task t e w = failed_with t e (emit t.id (task_failed e) w.run.store) w

  abbrev pub concluded : Task → Result Final → World → World
  concluded t (ok final) w = complete t final w
  concluded t (err e) w = fail_task t e w

  -- The graph with its checkpointer, in the context of the world before.
  abbrev pub executed : Task → Result (Unit {0}) → (before : World) → World → World
  executed t (err e) before w = fail_task t e w
  executed t (ok saver) before w =
      let (r, s) = run_graph (context t before) (initial cfg t) w.run in
      concluded t r (record w { run = s })

  -- The run inside its sandbox.
  unfoldable pub attempt : Task → Result (Unit {0}) → World → World
  attempt t (err e) w = fail_task t e w
  attempt t (ok llm) w =
      executed t (checkpointer_context out.postgres cfg) w (set_status t.id running (λ u. u) w)

  -- With its sandbox started or not; what was started is destroyed at the end.
  abbrev pub in_sandbox : Task → Result SandboxSession → World → World
  in_sandbox t (err e) w = fail_task t e w
  in_sandbox t (ok session) w =
      let w' = attempt t built_llm w in
      if is_empty session.endpoint
      then w'
      else record w' { sandboxes = destroy_session cfg out.docker t.id w'.sandboxes }

  abbrev pub with_sandbox : Task → Result SandboxSession × Manager → World → World
  with_sandbox t (r, m) w = in_sandbox t r (record w { sandboxes = m })

  abbrev pub start_task : (skip_sandbox : Bool) → Task → World → World
  start_task true t w = attempt t built_llm w
  start_task false t w = with_sandbox t (create_session cfg out.docker t.id w.sandboxes) w

  abbrev pub planned : Task → World → World
  planned t = set_status t.id planning (λ u. record u { started_at = some out.started })

  abbrev pub run_found : (skip_sandbox : Bool) → Option Task → World → World
  run_found skip none w = w
  run_found skip (some t) w = if is_terminal t.status then w else start_task skip t (planned t w)

  -- run_task
  unfoldable pub run_task : (skip_sandbox : Bool) → (id : ℕ) → World → World
  run_task skip id w = run_found skip (find (λ t. t.id == id) w.tasks) w
