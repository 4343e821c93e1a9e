-- ===== src/Orchestrator/Runner/Ending.antt =====
-- How a run ends.
use agentis_backend.Prelude.{
  ℕ, ◌≡◌, ◌⊎◌, inl, inr, refl, sym, subst, Bool, true, false, Option, none, some, List, ◌==◌,
  ==_iff, find, find-true, find-update_where, Bool-cases,
}
use agentis_backend.Config.{Settings}
use agentis_backend.PyText.{is_empty}
use agentis_backend.Http.{Result, ok, err, Failure}
use agentis_backend.Sandbox.{SandboxSession, Manager, create_session}
use agentis_backend.Tools.Registry.{Registry}
use agentis_backend.Tasks.Model.{
  Task, TaskStatus, planning, running, completed, failed, is_terminal,
}
use agentis_backend.Orchestrator.Events.{TaskStep}
use agentis_backend.Orchestrator.Events.Numbering.{emit_eq}
use agentis_backend.Orchestrator.Checkpointer.{checkpointer_context}
use agentis_backend.Orchestrator.Runner.{
  executed, built_llm, result_fields, error_fields, task_failed, planned, complete, fail_task,
  concluded, attempt, with_sandbox, start_task, run_found, run_task,
}
use agentis_backend.Orchestrator.World.{
  World, Outside, Final, set_status, sum_task_tokens, count_task_steps,
}

-- The row of a task.
abbrev pub row : ℕ → World → Option Task
row id w = find (λ t. t.id == id) w.tasks

abbrev pub Over : ℕ → List TaskStep → Option Task → Type 0
Over id steps none = ⊥
Over id steps (some t) =
    ((t.status ≡ completed)
      × ((t.total_tokens ≡ sum_task_tokens id steps) × (t.total_steps ≡ count_task_steps id steps)))
    ⊎ ((t.status ≡ failed) × (t.error_code ≡ some "agent_error"))

-- The row says that the run is over: completed, with the tokens and the number of the steps that the task has
-- in the table, or failed with the code of a failed run.
abbrev pub IsOver : ℕ → World → Type 0
IsOver id w = Over id w.run.store.steps (row id w)

pub row_set :
    (id : ℕ) (status : TaskStatus) (fields : Task → Task) (w : World) (t : Task)
    → ((u : Task) → (fields u).id ≡ u.id)
    → row id w ≡ some t
    → row id (set_status id status fields w) ≡ some (fields (record t { status = status }))
row_set id status fields w t keep h =
    find-update_where (λ u. u.id == id) (λ u. fields (record u { status = status }))
      (λ u. rw (keep (record u { status = status })) refl) w.tasks t h

module _ (cfg : Settings) (out : Outside) (registry : Registry) where
  complete-IsOver :
      (t u : Task) (final : Final) (w : World)
      → row t.id w ≡ some u
      → IsOver t.id (complete cfg out registry t final w)
  unfolding complete
  complete-IsOver t u final w h =
      let tokens = sum_task_tokens t.id w.run.store.steps in
      let steps = count_task_steps t.id w.run.store.steps in
      let set =
        row_set t.id completed (result_fields cfg out registry final tokens steps) w u (λ v. refl)
          h in
      elim (Bool-cases (is_empty final.summary)) [
        | inl e ↦ rw (e, set) (inl (refl, (refl, refl)))
        | inr e ↦ rw (e, set) (inl (refl, (refl, refl)))
      ]

  fail_task-IsOver :
      (t u : Task) (e : Failure) (w : World)
      → row t.id w ≡ some u
      → IsOver t.id (fail_task cfg out registry t e w)
  unfolding fail_task
  fail_task-IsOver t u e w h =
      rw
        (
          emit_eq t.id (task_failed cfg out registry e) w.run.store,
          row_set t.id failed (error_fields cfg out registry e) w u (λ v. refl) h,
        )
        (inr (refl, refl))

  pub concluded-IsOver :
      (t u : Task) (r : Result Final) (w : World)
      → row t.id w ≡ some u
      → IsOver t.id (concluded cfg out registry t r w)
  concluded-IsOver t u (ok final) w h = complete-IsOver t u final w h
  concluded-IsOver t u (err e) w h = fail_task-IsOver t u e w h

  executed-IsOver :
      (t u : Task) (saver : Result (Unit {0})) (before w : World)
      → row t.id w ≡ some u
      → IsOver t.id (executed cfg out registry t saver before w)
  executed-IsOver t u (err e) before w h = fail_task-IsOver t u e w h
  executed-IsOver t u (ok saver) before w h = concluded-IsOver t u _ _ h

  attempt-IsOver :
      (t u : Task) (llm : Result (Unit {0})) (w : World)
      → row t.id w ≡ some u
      → IsOver t.id (attempt cfg out registry t llm w)
  unfolding attempt
  attempt-IsOver t u (err e) w h = fail_task-IsOver t u e w h
  attempt-IsOver t u (ok llm) w h =
      executed-IsOver t _ (checkpointer_context out.postgres cfg) w
        (set_status t.id running (λ v. v) w) (row_set t.id running (λ v. v) w u (λ v. refl) h)

  in_sandbox-IsOver :
      (t u : Task) (made : Result SandboxSession × Manager) (w : World)
      → row t.id w ≡ some u
      → IsOver t.id (with_sandbox cfg out registry t made w)
  in_sandbox-IsOver t u (err e, m) w h = fail_task-IsOver t u e _ h
  in_sandbox-IsOver t u (ok session, m) w h = elim (Bool-cases (is_empty session.endpoint)) [
    | inl e ↦ rw e (attempt-IsOver t u (built_llm cfg out registry) _ h)
    | inr e ↦ rw e (attempt-IsOver t u (built_llm cfg out registry) _ h)
  ]

  pub start_task-IsOver :
      (skip : Bool) (t u : Task) (w : World)
      → row t.id w ≡ some u
      → IsOver t.id (start_task cfg out registry skip t w)
  start_task-IsOver true t u w h = attempt-IsOver t u (built_llm cfg out registry) w h
  start_task-IsOver false t u w h =
      in_sandbox-IsOver t u (create_session cfg out.docker t.id w.sandboxes) w h

  run_task_once :
      (skip : Bool) (id : ℕ) (t : Task) (w : World)
      → row id w ≡ some t
      → is_terminal t.status ≡ false
      → IsOver id (run_task cfg out registry skip id w)
  unfolding run_task
  run_task_once skip id t w h live =
      let same : t.id ≡ id = (==_iff t.id id).0 (find-true (λ u. u.id == id) w.tasks t h) in
      rw (h, live)
        (subst (λ n. IsOver n (start_task cfg out registry skip t (planned cfg out registry t w)))
          same
          (start_task-IsOver skip t _ (planned cfg out registry t w) (
            row_set t.id planning (λ u. record u { started_at = some out.started }) w t (λ u. refl)
              (subst (λ n. row n w ≡ some t) (sym same) h))))

-- A run of a task that is over changes nothing.
run_over :
    (cfg : Settings) (out : Outside) (registry : Registry) (skip : Bool) (id : ℕ) (w : World)
    → IsOver id w
    → run_task cfg out registry skip id w ≡ w
unfolding run_task
run_over cfg out registry skip id w = by_row (row id w) refl
  where
    by_row :
        (found : Option Task)
        → row id w ≡ found
        → Over id w.run.store.steps found
        → run_found cfg out registry skip found w ≡ w
    by_row none e over = absurd over
    by_row (some t) e (inl (done, counted)) = rw done refl
    by_row (some t) e (inr (done, code)) = rw done refl

-- A run of a task that is not over ends with the task completed, its tokens and steps being those in the
-- steps table, or failed with the code "agent_error", whatever the model, the tools, docker and langgraph
-- do. Delivering the task again, to whatever worker, changes nothing.
pub run_task-IsOver :
    (cfg : Settings) (out out' : Outside) (registry registry' : Registry) (skip skip' : Bool)
    (id : ℕ) (t : Task) (w : World)
    → row id w ≡ some t
    → is_terminal t.status ≡ false
    → let after = run_task cfg out registry skip id w in
      IsOver id after × (run_task cfg out' registry' skip' id after ≡ after)
run_task-IsOver cfg out out' registry registry' skip skip' id t w h live =
    let over = run_task_once cfg out registry skip id t w h live in
    (over, run_over cfg out' registry' skip' id _ over)
