-- ===== src/Orchestrator/Runner/Rows.antt =====
-- What a run does to the rows of the tasks.
use agentis_backend.Prelude.{
  ◌≡◌, refl, Bool, true, false, some, List, ◌==◌, Bool-cases, inl, inr, update_where,
}
use agentis_backend.PyText.{is_empty}
use agentis_backend.Config.{Settings}
use agentis_backend.Http.{Failure, Result, ok, err}
use agentis_backend.Sandbox.{SandboxSession, Manager, create_session}
use agentis_backend.Tools.Registry.{Registry}
use agentis_backend.Tasks.Model.{Task, running, is_terminal}
use agentis_backend.Orchestrator.Events.Numbering.{emit_eq}
use agentis_backend.Orchestrator.Checkpointer.{checkpointer_context}
use agentis_backend.Orchestrator.World.{World, Outside, Final, set_status}
use agentis_backend.Orchestrator.Runner.{
  built_llm, complete, task_failed, fail_task, concluded, executed, attempt, with_sandbox,
  start_task, planned, run_found,
}

-- A change of a row that leaves its id, its owner and its deletion alone.
pub record IsUpdate (f : Task → Task) : Type 0 where
  pub id : (t : Task) → (f t).id ≡ t.id
  pub user_id : (t : Task) → (f t).user_id ≡ t.user_id
  pub deleted_at : (t : Task) → (f t).deleted_at ≡ t.deleted_at

-- What such changes of the task's row keep of the table, a run keeps.
module _ (cfg : Settings) (out : Outside) (registry : Registry) (t : Task) (P : List Task → Type 0)
    (kept : (f : Task → Task) (tasks : List Task)
      → IsUpdate f
      → P tasks
      → P (update_where (λ u. u.id == t.id) f tasks)) where
  complete-Rows :
      (final : Final) (w : World) → P w.tasks → P (complete cfg out registry t final w).tasks
  unfolding complete
  complete-Rows final w h =
      let set =
        kept _ w.tasks (record { id = λ u. refl; user_id = λ u. refl; deleted_at = λ u. refl }) h in
      elim (Bool-cases (is_empty final.summary)) [ inl e ↦ rw e set | inr e ↦ rw e set ]

  fail_task-Rows :
      (e : Failure) (w : World) → P w.tasks → P (fail_task cfg out registry t e w).tasks
  unfolding fail_task
  fail_task-Rows e w h =
      rw (emit_eq t.id (task_failed cfg out registry e) w.run.store)
        (kept _ w.tasks (record { id = λ u. refl; user_id = λ u. refl; deleted_at = λ u. refl }) h)

  concluded-Rows :
      (r : Result Final) (w : World) → P w.tasks → P (concluded cfg out registry t r w).tasks
  concluded-Rows (ok final) w h = complete-Rows final w h
  concluded-Rows (err e) w h = fail_task-Rows e w h

  executed-Rows :
      (saver : Result (Unit {0})) (before w : World)
      → P w.tasks
      → P (executed cfg out registry t saver before w).tasks
  executed-Rows (err e) before w h = fail_task-Rows e w h
  executed-Rows (ok saver) before w h = concluded-Rows _ _ h

  attempt-Rows :
      (llm : Result (Unit {0})) (w : World) → P w.tasks → P (attempt cfg out registry t llm w).tasks
  unfolding attempt
  attempt-Rows (err e) w h = fail_task-Rows e w h
  attempt-Rows (ok llm) w h =
      executed-Rows (checkpointer_context out.postgres cfg) w (set_status t.id running (λ u. u) w)
        (kept _ w.tasks (record { id = λ u. refl; user_id = λ u. refl; deleted_at = λ u. refl }) h)

  with_sandbox-Rows :
      (made : Result SandboxSession × Manager) (w : World)
      → P w.tasks
      → P (with_sandbox cfg out registry t made w).tasks
  with_sandbox-Rows (err e, m) w h = fail_task-Rows e _ h
  with_sandbox-Rows (ok session, m) w h = elim (Bool-cases (is_empty session.endpoint)) [
    | inl e ↦ rw e (attempt-Rows (built_llm cfg out registry) _ h)
    | inr e ↦ rw e (attempt-Rows (built_llm cfg out registry) _ h)
  ]

  start_task-Rows :
      (skip : Bool) (w : World) → P w.tasks → P (start_task cfg out registry skip t w).tasks
  start_task-Rows true w h = attempt-Rows (built_llm cfg out registry) w h
  start_task-Rows false w h = with_sandbox-Rows (create_session cfg out.docker t.id w.sandboxes) w h

  pub run_found-Rows :
      (skip : Bool) (w : World) → P w.tasks → P (run_found cfg out registry skip (some t) w).tasks
  run_found-Rows skip w h = elim (Bool-cases (is_terminal t.status)) [
    | inl e ↦ rw e h
    | inr e ↦ rw e (
        start_task-Rows skip (planned cfg out registry t w) (
          kept _ w.tasks (record { id = λ u. refl; user_id = λ u. refl; deleted_at = λ u. refl })
            h))
  ]
