-- ===== src/Orchestrator/Runner/Charges.antt =====
-- What a run adds to its user's monthly usage.
use agentis_backend.Prelude.{
  ℕ, ◌≡◌, ◌⊎◌, inl, inr, refl, sym, subst, Bool, true, false, Option, none, some, List, ◌==◌,
  ==_iff, find-true, Bool-cases, [], ◌∷◌, ◌+◌, arith, if◌then◌else◌, update_where,
}
use agentis_backend.Config.{Settings}
use agentis_backend.PyText.{is_empty}
use agentis_backend.Http.{Result, ok, err, Failure}
use agentis_backend.Auth.Model.{User}
use agentis_backend.Sandbox.{SandboxSession, Manager, create_session}
use agentis_backend.Tools.Registry.{Registry}
use agentis_backend.Tasks.Model.{
  Task, TaskStatus, planning, running, completed, failed, is_terminal,
}
use agentis_backend.Orchestrator.Events.{TaskStep}
use agentis_backend.Orchestrator.Budget.{record_usage}
use agentis_backend.Orchestrator.Events.Numbering.{emit_eq}
use agentis_backend.Orchestrator.Checkpointer.{checkpointer_context}
use agentis_backend.Orchestrator.Runner.{
  executed, built_llm, result_fields, error_fields, task_failed, planned, complete, fail_task,
  concluded, attempt, with_sandbox, start_task, run_task,
}
use agentis_backend.Orchestrator.World.{
  set_status, World, Outside, Final, sum_task_tokens, count_task_steps,
}
use agentis_backend.Orchestrator.Runner.Ending.{row, row_set}

abbrev pub status_of : Option Task → Option TaskStatus
status_of none = none
status_of (some t) = some t.status

-- The tokens of the steps of a task.
abbrev pub tokens_of : ℕ → List TaskStep → ℕ
tokens_of id [] = 0
tokens_of id (s ∷ rest) =
    if s.task_id == id then s.tokens_used + tokens_of id rest else tokens_of id rest

-- The users, of whom the one of the id has used so many tokens more, and nothing else differs.
abbrev pub charged : (user tokens : ℕ) → List User → List User
charged user tokens [] = []
charged user tokens (u ∷ rest) =
    (if u.id == user
      then record u { token_used_this_month = u.token_used_this_month + tokens }
      else u)
    ∷ charged user tokens rest

tokens_of_lem : (id : ℕ) (steps : List TaskStep) → sum_task_tokens id steps ≡ tokens_of id steps
unfolding sum_task_tokens
tokens_of_lem id [] = refl
tokens_of_lem id (s ∷ rest) = ground (arith, tokens_of_lem id rest)

charged_lem :
    (user tokens : ℕ) (users : List User)
    → record_usage user tokens users ≡ charged user tokens users
unfolding record_usage update_where
charged_lem user tokens [] = refl
charged_lem user tokens (u ∷ rest) = ground (arith, charged_lem user tokens rest)

-- The run of the task, from the users before to the world after, completed and charged the tokens of the task's
-- steps to its user, or failed and charged nothing.
abbrev pub IsCharged : ℕ → (user : ℕ) → List User → World → Type 0
IsCharged id user users w =
    ((status_of (row id w) ≡ some completed)
      × (w.users ≡ charged user (tokens_of id w.run.store.steps) users))
    ⊎ ((status_of (row id w) ≡ some failed) × (w.users ≡ users))

module _ (cfg : Settings) (out : Outside) (registry : Registry) where
  complete-IsCharged :
      (t u : Task) (final : Final) (w : World)
      → row t.id w ≡ some u
      → IsCharged t.id t.user_id w.users (complete cfg out registry t final w)
  unfolding complete
  complete-IsCharged t u final w h =
      let tokens = sum_task_tokens t.id w.run.store.steps in
      let steps = count_task_steps t.id w.run.store.steps in
      let set =
        row_set t.id completed (result_fields cfg out registry final tokens steps) w u (λ v. refl)
          h in
      let paid : record_usage t.user_id tokens w.users
          ≡ charged t.user_id (tokens_of t.id w.run.store.steps) w.users =
        rw tokens_of_lem (charged_lem t.user_id (tokens_of t.id w.run.store.steps) w.users) in
      elim (Bool-cases (is_empty final.summary)) [
        | inl e ↦ rw (e, set) (inl (refl, paid))
        | inr e ↦ rw (e, set) (inl (refl, paid))
      ]

  fail_task-IsCharged :
      (t u : Task) (e : Failure) (w : World)
      → row t.id w ≡ some u
      → IsCharged t.id t.user_id w.users (fail_task cfg out registry t e w)
  unfolding fail_task
  fail_task-IsCharged t u e w h =
      rw
        (
          emit_eq t.id (task_failed cfg out registry e) w.run.store,
          row_set t.id failed (error_fields cfg out registry e) w u (λ v. refl) h,
        )
        (inr (refl, refl))

  concluded-IsCharged :
      (t u : Task) (r : Result Final) (w : World)
      → row t.id w ≡ some u
      → IsCharged t.id t.user_id w.users (concluded cfg out registry t r w)
  concluded-IsCharged t u (ok final) w h = complete-IsCharged t u final w h
  concluded-IsCharged t u (err e) w h = fail_task-IsCharged t u e w h

  executed-IsCharged :
      (t u : Task) (saver : Result (Unit {0})) (before w : World)
      → row t.id w ≡ some u
      → IsCharged t.id t.user_id w.users (executed cfg out registry t saver before w)
  executed-IsCharged t u (err e) before w h = fail_task-IsCharged t u e w h
  executed-IsCharged t u (ok saver) before w h = concluded-IsCharged t u _ _ h

  attempt-IsCharged :
      (t u : Task) (llm : Result (Unit {0})) (w : World)
      → row t.id w ≡ some u
      → IsCharged t.id t.user_id w.users (attempt cfg out registry t llm w)
  unfolding attempt
  attempt-IsCharged t u (err e) w h = fail_task-IsCharged t u e w h
  attempt-IsCharged t u (ok llm) w h =
      executed-IsCharged t _ (checkpointer_context out.postgres cfg) w
        (set_status t.id running (λ v. v) w) (row_set t.id running (λ v. v) w u (λ v. refl) h)

  with_sandbox-IsCharged :
      (t u : Task) (made : Result SandboxSession × Manager) (w : World)
      → row t.id w ≡ some u
      → IsCharged t.id t.user_id w.users (with_sandbox cfg out registry t made w)
  with_sandbox-IsCharged t u (err e, m) w h = fail_task-IsCharged t u e _ h
  with_sandbox-IsCharged t u (ok session, m) w h = elim (Bool-cases (is_empty session.endpoint)) [
    | inl e ↦ rw e (attempt-IsCharged t u (built_llm cfg out registry) _ h)
    | inr e ↦ rw e (attempt-IsCharged t u (built_llm cfg out registry) _ h)
  ]

  start_task-IsCharged :
      (skip : Bool) (t u : Task) (w : World)
      → row t.id w ≡ some u
      → IsCharged t.id t.user_id w.users (start_task cfg out registry skip t w)
  start_task-IsCharged true t u w h = attempt-IsCharged t u (built_llm cfg out registry) w h
  start_task-IsCharged false t u w h =
      with_sandbox-IsCharged t u (create_session cfg out.docker t.id w.sandboxes) w h

  -- A run of a task whose row is there and not terminal either completes it and adds the tokens of its steps to
  -- the monthly usage of its user, changing no other user and nothing else, or fails it and leaves every user as it was.
  pub run_task-IsCharged :
      (skip : Bool) (id : ℕ) (t : Task) (w : World)
      → row id w ≡ some t
      → is_terminal t.status ≡ false
      → IsCharged id t.user_id w.users (run_task cfg out registry skip id w)
  unfolding run_task
  run_task-IsCharged skip id t w h live =
      let same : t.id ≡ id = (==_iff t.id id).0 (find-true (λ u. u.id == id) w.tasks t h) in
      rw (h, live)
        (subst
          (λ n.
            IsCharged n t.user_id w.users
              (start_task cfg out registry skip t (planned cfg out registry t w)))
          same
          (start_task-IsCharged skip t _ (planned cfg out registry t w) (
            row_set t.id planning (λ u. record u { started_at = some out.started }) w t (λ u. refl)
              (subst (λ n. row n w ≡ some t) (sym same) h))))
