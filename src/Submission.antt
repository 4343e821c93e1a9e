-- ===== src/Submission.antt =====
-- A task from its creation in the API over its run in a worker to the answer that its user gets:
-- app/routers/tasks.py's create_task and get_task, and app/worker/tasks.py's run_agent_task between them.
mod Examples
use agentis_backend.Prelude.{
  ℕ, ◌≡◌, refl, ◌∙◌, ap, String, false, none, List, [], ◌∷◌, ◌++◌, ◌⊎◌, ◌==◌, ==_refl, any, select,
  select-append, select_of_any, select_of_true, Bool-cases,
}
use agentis_backend.Config.{Settings}
use agentis_backend.Http.{Result, ok, err, ◌>>=◌}
use agentis_backend.Auth.Model.{User}
use agentis_backend.Tools.Registry.{Registry}
use agentis_backend.Tasks.Model.{Task, completed, failed, submitted, is_terminal}
use agentis_backend.Tasks.Repository as Repo
use agentis_backend.Tasks.Schemas.{TaskCreate, TaskResponse}
use agentis_backend.Tasks.Api.{Services, new_task, create_task}
use agentis_backend.Tasks.Api.Cancel.{seen_by}
use agentis_backend.Orchestrator.World.{World}
use agentis_backend.Orchestrator.Runner.{run_found}
use agentis_backend.Orchestrator.Runner.Ending.{row, IsOver}

-- The table has one row of the id, and it is the user's and not deleted.
abbrev One : (id user : ℕ) → List Task → Type 0
One id user tasks =
    (r : Task) × (select (λ t. t.id == id) tasks ≡ r ∷ [])
    × (r.user_id ≡ user)
    × (r.deleted_at ≡ none)

-- The answer shows a task of a status; of one that is over.
abbrev pub Shows : String → Result TaskResponse → Type 0
Shows status (ok r) = r.status ≡ status
Shows status (err e) = ⊥

abbrev pub ShowsEnd : Result TaskResponse → Type 0
ShowsEnd r = Shows "completed" r ⊎ Shows "failed" r

module _ (cfg : Settings) (services : Services) where
  abbrev new_row : (id now : ℕ) → TaskCreate → User → List Task → Task
  new_row id now body u tasks = (Repo.create_task (new_task cfg services id now body u) tasks).0

  created-One :
      (id now : ℕ) (body : TaskCreate) (u : User) (tasks : List Task)
      → any (λ t. t.id == id) tasks ≡ false
      → One id u.id (tasks ++ new_row id now body u tasks ∷ [])
  unfolding Repo.create_task select
  created-One id now body u tasks fresh = (
    new_row id now body u tasks,
    select-append (λ t. t.id == id) tasks (new_row id now body u tasks ∷ [])
        ∙ ap (λ l. l ++ select (λ t. t.id == id) (new_row id now body u tasks ∷ []))
            (select_of_any (λ t. t.id == id) tasks fresh)
        ∙ select_of_true (λ t. t.id == id) (new_row id now body u tasks) [] (==_refl id),
    refl,
    refl,
  )
