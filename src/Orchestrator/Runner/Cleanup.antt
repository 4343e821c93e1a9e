-- ===== src/Orchestrator/Runner/Cleanup.antt =====
-- A run leaves no sandbox behind.
use agentis_backend.Prelude.{
  ℕ, ◌≡◌, inl, inr, refl, ap, ◌∙◌, sym, subst, false, Option, none, some, ◌==◌, ==_iff, find,
  find-true, Bool-cases,
}
use agentis_backend.Config.{Settings}
use agentis_backend.PyText.{is_empty}
use agentis_backend.Http.{Result, ok, err, Failure}
use agentis_backend.Sandbox.{SandboxSession, Manager, get_session, create_session}
use agentis_backend.Sandbox.Lifecycle.{
  Leaves, create_session_lem, get-destroy, given_up-get_session, IsStored-filled,
}
use agentis_backend.Tools.Registry.{Registry}
use agentis_backend.Tasks.Model.{running, Task, is_terminal}
use agentis_backend.Orchestrator.Events.Numbering.{emit_eq}
use agentis_backend.Orchestrator.Checkpointer.{checkpointer_context}
use agentis_backend.Orchestrator.Runner.{
  executed, task_failed, complete, fail_task, concluded, attempt, with_sandbox, start_task,
  run_found, planned, run_task,
}
use agentis_backend.Orchestrator.World.{set_status, World, Outside, Final}

module _ (cfg : Settings) (out : Outside) (registry : Registry) where
  complete_sandboxes :
      (t : Task) (final : Final) (w : World)
      → (complete cfg out registry t final w).sandboxes ≡ w.sandboxes
  unfolding complete
  complete_sandboxes t final w = elim (Bool-cases (is_empty final.summary)) [
    | inl e ↦ rw e refl
    | inr e ↦ rw e refl
  ]

  fail_task_sandboxes :
      (t : Task) (e : Failure) (w : World)
      → (fail_task cfg out registry t e w).sandboxes ≡ w.sandboxes
  unfolding fail_task
  fail_task_sandboxes t e w = rw (emit_eq t.id (task_failed cfg out registry e) w.run.store) refl

  concluded_sandboxes :
      (t : Task) (r : Result Final) (w : World)
      → (concluded cfg out registry t r w).sandboxes ≡ w.sandboxes
  concluded_sandboxes t (ok final) w = complete_sandboxes t final w
  concluded_sandboxes t (err e) w = fail_task_sandboxes t e w

  executed_sandboxes :
      (t : Task) (saver : Result (Unit {0})) (before w : World)
      → (executed cfg out registry t saver before w).sandboxes ≡ w.sandboxes
  executed_sandboxes t (err e) before w = fail_task_sandboxes t e w
  executed_sandboxes t (ok saver) before w = concluded_sandboxes t _ _

  attempt_sandboxes :
      (t : Task) (llm : Result (Unit {0})) (w : World)
      → (attempt cfg out registry t llm w).sandboxes ≡ w.sandboxes
  unfolding attempt
  attempt_sandboxes t (err e) w = fail_task_sandboxes t e w
  attempt_sandboxes t (ok llm) w =
      executed_sandboxes t (checkpointer_context out.postgres cfg) w
        (set_status t.id running (λ u. u) w)

  with_sandbox-get_session :
      (t : Task) (made : Result SandboxSession × Manager) (w : World)
      → Leaves cfg out.docker t.id w.sandboxes made
      → get_session t.id w.sandboxes ≡ none
      → get_session t.id (with_sandbox cfg out registry t made w).sandboxes ≡ none
  with_sandbox-get_session t (err e, m) w left h =
      ap (get_session t.id) (fail_task_sandboxes t e (record w { sandboxes = m }))
      ∙ given_up-get_session cfg out.docker t.id w.sandboxes e m left h
  with_sandbox-get_session t (ok s, m) w stored h =
      rw (IsStored-filled cfg out.docker t.id w.sandboxes s m stored)
        (get-destroy cfg out.docker t.id _)

  abbrev started : Task → World → World
  started t w = start_task cfg out registry false t (planned cfg out registry t w)

  run_found-get_session :
      (id : ℕ) (found : Option Task) (w : World)
      → ((t : Task) → found ≡ some t → t.id ≡ id)
      → get_session id w.sandboxes ≡ none
      → get_session id (run_found cfg out registry false found w).sandboxes ≡ none
  run_found-get_session id none w same h = h
  run_found-get_session id (some t) w same h = elim (Bool-cases (is_terminal t.status)) [
    | inl over ↦ rw over h
    | inr live ↦ rw live (
        subst (λ n. get_session n (started t w).sandboxes ≡ none) (same t refl)
          (with_sandbox-get_session t (create_session cfg out.docker t.id w.sandboxes)
            (planned cfg out registry t w) (create_session_lem cfg out.docker t.id w.sandboxes)
            (subst (λ n. get_session n w.sandboxes ≡ none) (sym (same t refl)) h)))
  ]

  -- If no sandbox session is stored under a task, none is after a run of the task, with its sandbox,
  -- however the run ends.
  pub run_task-get_session :
      (id : ℕ) (w : World)
      → get_session id w.sandboxes ≡ none
      → get_session id (run_task cfg out registry false id w).sandboxes ≡ none
  unfolding run_task
  run_task-get_session id w h =
      run_found-get_session id (find (λ t. t.id == id) w.tasks) w
        (λ t e. (==_iff t.id id).0 (find-true (λ u. u.id == id) w.tasks t e)) h
