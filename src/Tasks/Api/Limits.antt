-- ===== src/Tasks/Api/Limits.antt =====
-- How many active tasks a user can have, and what a user can see of the tasks of others.
use agentis_backend.Prelude.{
  ℕ, ◌+◌, ◌≤◌, ◌≡◌, refl, ap, ◌∙◌, false, ◌&&◌, some, String, Option, List, [], ◌∷◌, arith, leb,
  if◌then◌else◌, ◌==◌, count, count-append, select, any, Bool-cases, inl, inr, ==_iff,
}
use agentis_backend.Config.{Settings}
use agentis_backend.Http.{Result, ok, err, http, ◌>>=◌}
use agentis_backend.Auth.Model.{User}
use agentis_backend.Tasks.Model.{Task}
use agentis_backend.Orchestrator.Events.{Event}
use agentis_backend.Tasks.Repository as Repo
use agentis_backend.Tasks.Repository.{NewTask, count_running_tasks, visible}
use agentis_backend.Tasks.Schemas.{TaskCreate, not_found, is_admin}
use agentis_backend.Tasks.Api.{
  Backend, Services, new_task, submit, create_task, get_task, cancel_task, stream_task,
}

-- A new task counts for its owner only.
count-create_task :
    (v : ℕ) (n : NewTask) (tasks : List Task)
    → count_running_tasks v (Repo.create_task n tasks).1
      ≡ count_running_tasks v tasks + (if n.user_id == v then 1 else 0)
unfolding count_running_tasks Repo.create_task count
count-create_task v n tasks =
    count-append _ tasks _ ∙ ap (λ k. count_running_tasks v tasks + k) (ground arith)

module _ (cfg : Settings) (services : Services) where
  submit_tasks :
      (r : Result (Unit {0})) (made : Task × List Task) (b : Backend)
      → (submit cfg services r made b).1.tasks ≡ made.1
  submit_tasks (ok done) made b = refl
  submit_tasks (err e) made b = refl

  -- No user gets more than five active tasks: creating a task, for whatever user, keeps the number of the
  -- active tasks of each user at five or less, also where Celery cannot be reached.
  pub create_task_limit :
      (v id now : ℕ) (body : TaskCreate) (u : User) (b : Backend)
      → count_running_tasks v b.tasks ≤ 5
      → count_running_tasks v (create_task cfg services id now body u b).1.tasks ≤ 5
  unfolding create_task
  create_task_limit v id now body u b h =
      elim (Bool-cases (leb 5 (count_running_tasks u.id b.tasks))) [
        | inl full ↦ rw full h
        | inr free ↦
            rw
              (
                free,
                submit_tasks (services.delay id)
                    (Repo.create_task (new_task cfg services id now body u) b.tasks) b,
                count-create_task v (new_task cfg services id now body u) b.tasks,
              )
              (ground (arith, h, free, ==_iff u.id v))
      ]

  none_visible :
      (id owner : ℕ) (tasks : List Task)
      → any (λ t. t.id == id && t.user_id == owner) tasks ≡ false
      → select (visible id (some owner)) tasks ≡ []
  unfolding select
  none_visible id owner [] h = refl
  none_visible id owner (t ∷ rest) h = ground (arith, none_visible id owner rest)

  -- A user who is neither an administrator nor an operator, and owns no task of that id, is told by get_task,
  -- stream_task and cancel_task alike that it is not there, and nothing changes.
  pub stranger_not_found :
      (now id : ℕ) (u : User) (header : Option String) (messages : List (Option Event))
      (b : Backend)
      → is_admin u.role ≡ false
      → any (λ t. t.id == id && t.user_id == u.id) b.tasks ≡ false
      → (get_task cfg services id u b ≡ (err (http not_found), b))
        × (stream_task cfg services id u header messages b ≡ (err (http not_found), b))
        × (cancel_task cfg services now id u b ≡ (err (http not_found), b))
  unfolding get_task stream_task cancel_task ◌>>=◌ Repo.get_task
  stranger_not_found now id u header messages b plain h = (
    rw (plain, none_visible id u.id b.tasks h),
    rw (plain, none_visible id u.id b.tasks h),
    rw (plain, none_visible id u.id b.tasks h),
  )
