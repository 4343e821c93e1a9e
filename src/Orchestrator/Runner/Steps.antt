-- ===== src/Orchestrator/Runner/Steps.antt =====
-- What a run does to the steps of the tasks, its own and the others'.
use agentis_backend.Prelude.{
  ℕ, ◌+◌, subst, ◌≡◌, ◌≢◌, refl, sym, ◌∙◌, Bool, true, false, Option, none, some, select,
  Bool-cases, inl, inr, ◌==◌, ==_iff, find, find-true,
}
use agentis_backend.PyText.{is_empty}
use agentis_backend.Config.{Settings}
use agentis_backend.Http.{Failure, Result, ok, err, crash, budget_exceeded, http, invalid_request}
use agentis_backend.Tools.Registry.{Registry}
use agentis_backend.Sandbox.{SandboxSession, create_session}
use agentis_backend.Tasks.Model.{Task, is_terminal, running}
use agentis_backend.Orchestrator.State.{AgentState}
use agentis_backend.Orchestrator.Events.{EventStore, Emission, emit, of_task, max_step}
use agentis_backend.Orchestrator.Events.Numbering.{
  IsNumbered, emit-IsNumbered, emit_eq, select_last, append_nil,
}
use agentis_backend.Orchestrator.Nodes.{Update, RunState, report_node}
use agentis_backend.Orchestrator.Graph as Graph
use agentis_backend.Orchestrator.Graph.{
  Outcome, finished, node_failed, recursion_error, recursion_limit, invoke,
}
use agentis_backend.Orchestrator.Graph.Keeps.{run_node-Keeps, invoke-Holds}
use agentis_backend.Orchestrator.Checkpointer.{checkpointer_context}
use agentis_backend.Orchestrator.Runner.{
  executed, built_llm, context, reported, partial_report, graph_result, run_graph, complete,
  failed_with, task_failed, fail_task, concluded, attempt, in_sandbox, start_task, planned,
  run_found, run_task,
}
use agentis_backend.Orchestrator.World.{World, Outside, Final, initial, set_status}

module _ (cfg : Settings) (out : Outside) (registry : Registry) (t : Task) (I : EventStore → Type 0)
    (kept : (e : Emission) (store : EventStore) → I store → I (emit t.id e store).1) where
  abbrev Holds : World → Type 0
  Holds w = I w.run.store

  reported-Holds :
      (r : Result Update × RunState) → I r.1.store → I (reported cfg out registry r).1.store
  reported-Holds (err e, s) h = h
  reported-Holds (ok u, s) h = h

  graph_result-Holds :
      (w : World) (st : AgentState) (o : Outcome) (s : RunState)
      → I s.store
      → I (graph_result cfg out registry (context cfg out registry t w) st (o, s)).1.store
  unfolding partial_report Graph.run_node
  graph_result-Holds w st (finished v) s h = h
  graph_result-Holds w st recursion_error s h = h
  graph_result-Holds w st (node_failed (http e)) s h = h
  graph_result-Holds w st (node_failed (crash e)) s h = h
  graph_result-Holds w st (node_failed (invalid_request e)) s h = h
  graph_result-Holds w st (node_failed (budget_exceeded e)) s h =
      let ctx = context cfg out registry t w in
      let last = record st { partial = true } in
      reported-Holds (report_node cfg out.env ctx last s)
        ((run_node-Keeps cfg out.env ctx I kept Graph.report last).at s h)

  run_graph-Holds :
      (w : World) (s : RunState)
      → I s.store
      → I (run_graph cfg out registry (context cfg out registry t w) (initial cfg t) s).1.store
  unfolding run_graph
  run_graph-Holds w s h =
      let ctx = context cfg out registry t w in
      let st = initial cfg t in
      let v : Graph.Values = record { state = st; result_summary = none } in
      let (o, s') =
        invoke cfg out.env ctx out.undeclared (recursion_limit st.max_iterations) Graph.plan v s in
      graph_result-Holds w st o s' (
        invoke-Holds cfg out.env ctx I kept out.undeclared (recursion_limit st.max_iterations)
          Graph.plan v s h)

  failed_with-Holds :
      (e : Failure) (r : Result ℕ) (store : EventStore) (w : World)
      → I store
      → Holds (failed_with cfg out registry t e (r, store) w)
  failed_with-Holds e (ok number) store w h = h
  failed_with-Holds e (err lost) store w h = h

  fail_task-Holds : (e : Failure) (w : World) → Holds w → Holds (fail_task cfg out registry t e w)
  unfolding fail_task
  fail_task-Holds e w h =
      let (r, store) = emit t.id (task_failed cfg out registry e) w.run.store in
      failed_with-Holds e r store w (kept (task_failed cfg out registry e) w.run.store h)

  complete_run : (final : Final) (w : World) → (complete cfg out registry t final w).run ≡ w.run
  unfolding complete
  complete_run final w = elim (Bool-cases (is_empty final.summary)) [
    | inl e ↦ rw e refl
    | inr e ↦ rw e refl
  ]

  concluded-Holds :
      (r : Result Final) (w : World) → Holds w → Holds (concluded cfg out registry t r w)
  concluded-Holds (err e) w h = fail_task-Holds e w h
  concluded-Holds (ok final) w h = rw (complete_run final w) h

  executed-Holds :
      (saver : Result (Unit {0})) (before w : World)
      → Holds w
      → Holds (executed cfg out registry t saver before w)
  executed-Holds (err e) before w h = fail_task-Holds e w h
  executed-Holds (ok saver) before w h =
      let (r, s) =
        run_graph cfg out registry (context cfg out registry t before) (initial cfg t) w.run in
      concluded-Holds r (record w { run = s }) (run_graph-Holds before w.run h)

  attempt-Holds :
      (r : Result (Unit {0})) (w : World) → Holds w → Holds (attempt cfg out registry t r w)
  unfolding attempt
  attempt-Holds (err e) w h = fail_task-Holds e w h
  attempt-Holds (ok llm) w h =
      executed-Holds (checkpointer_context out.postgres cfg) w (set_status t.id running (λ u. u) w)
        h

  in_sandbox-Holds :
      (r : Result SandboxSession) (w : World) → Holds w → Holds (in_sandbox cfg out registry t r w)
  in_sandbox-Holds (err e) w h = fail_task-Holds e w h
  in_sandbox-Holds (ok session) w h = elim (Bool-cases (is_empty session.endpoint)) [
    | inl e ↦ rw e (attempt-Holds (built_llm cfg out registry) w h)
    | inr e ↦ rw e (attempt-Holds (built_llm cfg out registry) w h)
  ]

  start_task-Holds :
      (skip : Bool) (w : World) → Holds w → Holds (start_task cfg out registry skip t w)
  start_task-Holds true w h = attempt-Holds (built_llm cfg out registry) w h
  start_task-Holds false w h =
      let (r, m) = create_session cfg out.docker t.id w.sandboxes in
      in_sandbox-Holds r (record w { sandboxes = m }) h

  run_found-Holds :
      (skip : Bool) (w : World) → Holds w → Holds (run_found cfg out registry skip (some t) w)
  run_found-Holds skip w h = elim (Bool-cases (is_terminal t.status)) [
    | inl e ↦ rw e h
    | inr e ↦ rw e (start_task-Holds skip (planned cfg out registry t w) h)
  ]

-- What every emission for a task keeps of the store, a run of the task keeps.
run_task-Holds :
    (cfg : Settings) (out : Outside) (registry : Registry) (skip : Bool) (id : ℕ) (w : World)
    (I : EventStore → Type 0)
    → ((e : Emission) (store : EventStore) → I store → I (emit id e store).1)
    → I w.run.store
    → I (run_task cfg out registry skip id w).run.store
unfolding run_task
run_task-Holds cfg out registry skip id w I kept h = by_row (find (λ t. t.id == id) w.tasks) refl
  where
    by_row :
        (found : Option Task)
        → find (λ t. t.id == id) w.tasks ≡ found
        → I (run_found cfg out registry skip found w).run.store
    by_row none e = h
    by_row (some t) e =
        let same = (==_iff t.id id).0 (find-true (λ t. t.id == id) w.tasks t e) in
        run_found-Holds cfg out registry t I
          (subst (λ (n : ℕ). (e : Emission) (store : EventStore) → I store → I (emit n e store).1)
            (sym same) kept)
          skip w h

others_steps :
    (v id : ℕ) (e : Emission) (store : EventStore)
    → v ≢ id
    → select (of_task v) (emit id e store).1.steps ≡ select (of_task v) store.steps
others_steps v id e store ne = elim (Bool-cases (id == v)) [
  | inl same ↦ absurd (ne (sym ((==_iff id v).0 same)))
  | inr other ↦ rw (
    emit_eq id e store,
    select_last v id (max_step id store.steps + 1) e store.steps,
    other,
    append_nil (select (of_task v) store.steps),
  )
]

-- A run of a task, whatever the model, the tools, docker and langgraph do and however it ends, keeps the
-- steps of every task numbered from 1 on without a gap, and leaves those of the other tasks as they were.
pub run_task-IsNumbered :
    (cfg : Settings) (out : Outside) (registry : Registry) (skip : Bool) (id : ℕ) (w : World)
    → ((u : ℕ) → IsNumbered u w.run.store)
    → let after = (run_task cfg out registry skip id w).run.store in
      ((u : ℕ) → IsNumbered u after)
      × ((v : ℕ) → v ≢ id → select (of_task v) after.steps ≡ select (of_task v) w.run.store.steps)
run_task-IsNumbered cfg out registry skip id w h = (
  λ u. run_task-Holds cfg out registry skip id w (IsNumbered u) (emit-IsNumbered u id) (h u),
  λ v ne.
      run_task-Holds cfg out registry skip id w
        (λ store. select (of_task v) store.steps ≡ select (of_task v) w.run.store.steps)
        (λ e store same. others_steps v id e store ne ∙ same) refl,
)
