-- ===== src/Races.antt =====
-- What becomes of a task that the API cancels while a worker runs it: app/routers/tasks.py's cancel_task
-- between the steps of app/orchestrator/runner.py's run_task.
pub mod Examples
use agentis_backend.Prelude.{
  ℕ, ◌≡◌, refl, ◌∙◌, sym, ap, subst, Bool, true, false, ◌&&◌, Option, none, some, List, [], ◌∷◌,
  arith, ◌==◌, select, find, update_where, Bool-cases, inl, inr,
}
use agentis_backend.Config.{Settings}
use agentis_backend.Http.{Result, ok}
use agentis_backend.Auth.Model.{User}
use agentis_backend.Tools.Registry.{Registry}
use agentis_backend.Tasks.Model.{Task, is_terminal}
use agentis_backend.Tasks.Repository.{visible, owner_of}
use agentis_backend.Tasks.Schemas.{to_response, is_admin}
use agentis_backend.Tasks.Api.{Backend, Services, cancel_task}
use agentis_backend.Tasks.Api.Cancel.{
  cancelled_at, seen_by, seen_after, cancel_active, first_cancel,
}
use agentis_backend.Orchestrator.World.{World, Outside, Final}
use agentis_backend.Orchestrator.Runner.{start_task, concluded}
use agentis_backend.Orchestrator.Runner.Ending.{row, IsOver, start_task-IsOver, concluded-IsOver}

visible-id :
    (id : ℕ) (owner : Option ℕ) (t : Task) → visible id owner t ≡ true → (t.id == id) ≡ true
visible-id id none t h = ground (arith, h)
visible-id id (some u) t h = ground (arith, h)

-- A query of tasks that are visible under an id finds a row of that id.
row_of_seen :
    (id : ℕ) (owner : Option ℕ) (tasks : List Task) (t : Task) (rest : List Task)
    → select (visible id owner) tasks ≡ t ∷ rest
    → (r : Task) × (find (λ v. v.id == id) tasks ≡ some r)
unfolding select find
row_of_seen id owner [] t rest h = absurd (ground (arith, h))
row_of_seen id owner (v ∷ tasks) t rest h = elim (Bool-cases (v.id == id)) [
  | inl e ↦ (v, rw e refl)
  | inr e ↦
      let (r, found) =
        row_of_seen id owner tasks t rest (ground (arith, h, e, visible-id id owner v)) in
      (r, rw e found)
]

module _ (cfg : Settings) (services : Services) (out : Outside) (registry : Registry) where
  -- A user cancels an active task that a worker has read already, before the worker starts it in its sandbox or
  -- while its graph runs, whatever comes of that. The cancellation is answered with the task, cancelled, and
  -- the worker writes over it: in the end the task is completed or failed.
  pub cancel_task-run_task :
      (skip : Bool) (result : Result Final) (now : ℕ) (u : User) (t seen : Task) (b : Backend)
      (w : World)
      → seen_by cfg services u t.id b.tasks ≡ seen ∷ []
      → is_terminal seen.status ≡ false
      → w.tasks ≡ (cancel_task cfg services now t.id u b).1.tasks
      → ((cancel_task cfg services now t.id u b).0 ≡ ok (to_response (cancelled_at now seen)))
        × (IsOver t.id (start_task cfg out registry skip t w)
            × IsOver t.id (concluded cfg out registry t result w))
  cancel_task-run_task skip result now u t seen b w h active shared =
      let cancelled = cancel_active cfg services now t.id u seen b h active in
      let same : w.tasks ≡ (first_cancel cfg services now t.id seen b).tasks =
        shared ∙ ap (λ p. p.1.tasks) cancelled in
      let (r, found) =
        row_of_seen t.id (owner_of (some u.id) (is_admin u.role)) w.tasks (cancelled_at now seen) []
          (ap (seen_by cfg services u t.id) same ∙ seen_after cfg services now t.id u seen b h) in
      (
        ap (λ p. p.0) cancelled,
        (
          start_task-IsOver cfg out registry skip t r w found,
          concluded-IsOver cfg out registry t r result w found,
        ),
      )
