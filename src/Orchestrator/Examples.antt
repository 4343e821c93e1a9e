-- ===== src/Orchestrator/Examples.antt =====
-- The theorems about the orchestrator at concrete inputs.
use agentis_backend.Prelude.{
  List, drop, ◌∷◌, ℕ, ◌≢◌, ◌≡◌, select, find, drop, ◌+◌, ◌*◌, ◌≤◌, refl, none, [], ◌∷◌, true, false,
}
use agentis_backend.Config.{defaults}
use agentis_backend.Orchestrator.State.{pos}
use agentis_backend.Orchestrator.Nodes.{RunContext}
use agentis_backend.Tasks.Model.{submitted}
use agentis_backend.Tasks.Sample.{task}
use agentis_backend.Orchestrator.Events.{Emission, of_task, replay, think, thought}
use agentis_backend.Orchestrator.Events.Numbering.{IsNumbered}
use agentis_backend.Orchestrator.Events.Replay.{
  emit_all, for_task, heard, announced, empty, emit_all-replay,
}
use agentis_backend.Orchestrator.Runner.{run_task}
use agentis_backend.Sandbox.{get_session}
use agentis_backend.Orchestrator.Runner.Cleanup.{run_task-get_session}
use agentis_backend.Orchestrator.Runner.Charges.{IsCharged, run_task-IsCharged}
use agentis_backend.Orchestrator.Runner.Steps.{run_task-IsNumbered}
use agentis_backend.Orchestrator.Sample.{env, start, outside, world}
use agentis_backend.Orchestrator.Runner.Ending.{IsOver, run_task-IsOver}
use agentis_backend.Orchestrator.Graph.{plan, Values, invoke, recursion_limit}
use agentis_backend.Orchestrator.Graph.Limits.{IsSettled, graph_terminates, graph_calls_bound}

abbrev ctx : RunContext
ctx = record { task_id = 7; allowed_tools = none; memory_block = ""; registry = [] }

abbrev initial : Values
initial = record {
  state = record {
    goal = "say hello";
    language = "en";
    plan = none;
    messages = [];
    scratchpad = "";
    iteration = 0;
    max_iterations = pos 3;
    confidence = "0.0";
    failures = 0;
    partial = false;
    done = false;
    reflect_decision = none;
  };
  result_summary = none;
}

graph_terminates_example :
    IsSettled (invoke defaults env ctx (λ s. none) (recursion_limit (pos 3)) plan initial start).0
graph_terminates_example = graph_terminates defaults env ctx (λ s. none) 3 initial start refl

graph_calls_bound_example :
    (invoke defaults env ctx (λ s. none) (recursion_limit (pos 3)) plan initial start).1.llm_calls
    ≤ 0 + (3 * 3 + 4)
graph_calls_bound_example = graph_calls_bound defaults env ctx (λ s. none) 3 initial start refl

-- A thought of a task, and two of its steps among those of another.
abbrev thinking : Emission
thinking = record {
  step_type = think;
  content = thought "first" 3;
  tokens_used = 3;
  duration_ms = none;
  sse_type = none;
}

abbrev emissions : List (ℕ × Emission)
emissions = (7, thinking) ∷ (8, thinking) ∷ (7, thinking) ∷ []

emit_all-replay_example :
    let store = emit_all emissions empty in
    (heard 7 store.published ≡ announced 1 (for_task 7 emissions))
    × (replay 7 1 store ≡ drop 1 (announced 1 (for_task 7 emissions)))
emit_all-replay_example =
    emit_all-replay 7 emissions 1 ((λ h. refl), ((λ h. refl), ((λ h. refl), tt)))

run_task-IsOver_example :
    let after = run_task defaults outside [] false 7 world in
    IsOver 7 after × (run_task defaults outside [] true 7 after ≡ after)
unfolding find
run_task-IsOver_example =
    run_task-IsOver defaults outside outside [] [] false true 7 (task 7 1 submitted) world refl refl

run_task-get_session_example :
    get_session 7 (run_task defaults outside [] false 7 world).sandboxes ≡ none
unfolding get_session find
run_task-get_session_example = run_task-get_session defaults outside [] 7 world refl

run_task-IsCharged_example : IsCharged 7 1 [] (run_task defaults outside [] false 7 world)
unfolding find
run_task-IsCharged_example =
    run_task-IsCharged defaults outside [] false 7 (task 7 1 submitted) world refl refl

run_task-IsNumbered_example :
    let after = (run_task defaults outside [] false 7 world).run.store in
    ((u : ℕ) → IsNumbered u after)
    × ((v : ℕ) → v ≢ 7 → select (of_task v) after.steps ≡ select (of_task v) [])
unfolding select
run_task-IsNumbered_example = run_task-IsNumbered defaults outside [] false 7 world (λ u. tt)
