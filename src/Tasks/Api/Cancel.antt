-- ===== src/Tasks/Api/Cancel.antt =====
-- What cancelling a task does, once and again.
use agentis_backend.Prelude.{
  ℕ, ◌≡◌, refl, ap, ◌∙◌, Bool, true, false, Option, none, some, List, [], ◌∷◌, arith, ◌==◌, ==_refl,
  select, update_where, select-update_where,
}
use agentis_backend.Config.{Settings}
use agentis_backend.Http.{Result, ok, err, ◌>>=◌}
use agentis_backend.Http.Rules.{bind_ok}
use agentis_backend.Auth.Model.{User}
use agentis_backend.Orchestrator.Events.{emit_failed_cancelled}
use agentis_backend.Orchestrator.Events.Numbering.{emit_eq}
use agentis_backend.Tasks.Model.{Task, cancelled, is_terminal}
use agentis_backend.Tasks.Repository as Repo
use agentis_backend.Tasks.Repository.{visible, owner_of, cancel_found}
use agentis_backend.Tasks.Schemas.{to_response, is_admin}
use agentis_backend.Tasks.Api.{
  Backend, Services, found, cancel_row, stop_task, after_cancel, revoked_by, cancel_task,
}

-- The row that a cancelled task becomes.
abbrev pub cancelled_at : ℕ → Task → Task
cancelled_at now t = record t { status = cancelled; completed_at = some now }

-- The table after the row of `t` is cancelled.
abbrev cancel_in : ℕ → Task → List Task → List Task
cancel_in now t = update_where (λ v. v.id == t.id) (cancelled_at now)

cancel_found_active :
    (now : ℕ) (t : Task) (tasks : List Task)
    → is_terminal t.status ≡ false
    → cancel_found now (some t) tasks ≡ (true, cancel_in now t tasks)
unfolding cancel_found
cancel_found_active now t tasks h = ground arith

visible_cancelled :
    (now id : ℕ) (owner : Option ℕ) (t : Task)
    → visible id owner (cancelled_at now t) ≡ visible id owner t
visible_cancelled now id none t = refl
visible_cancelled now id (some u) t = refl

select_cancelled :
    (now id : ℕ) (owner : Option ℕ) (t : Task) (tasks : List Task)
    → select (visible id owner) tasks ≡ t ∷ []
    → select (visible id owner) (cancel_in now t tasks) ≡ cancelled_at now t ∷ []
select_cancelled now id owner t tasks h =
    select-update_where (visible id owner) (λ v. v.id == t.id) (cancelled_at now)
      (visible_cancelled now id owner) tasks
    ∙ ap (cancel_in now t) h
    ∙ (unfold update_where in rw (==_refl t.id) refl)

module _ (cfg : Settings) (services : Services) where
  -- The tasks that a user's request for a task finds.
  abbrev pub seen_by : User → ℕ → List Task → List Task
  seen_by u id = select (visible id (owner_of (some u.id) (is_admin u.role)))

  get_eq :
      (id : ℕ) (u : User) (t : Task) (b : Backend)
      → seen_by u id b.tasks ≡ t ∷ []
      → Repo.get_task id (some u.id) (is_admin u.role) b.tasks ≡ ok (some t)
  unfolding Repo.get_task
  get_eq id u t b h = rw h refl

  pub found_eq :
      (id : ℕ) (u : User) (t : Task) (b : Backend)
      → seen_by u id b.tasks ≡ t ∷ []
      → found cfg services id u b ≡ (ok t, b)
  unfolding ◌>>=◌ Repo.get_task
  found_eq id u t b h = rw h refl

  revoked_events :
      (r : Result (Unit {0})) (id : ℕ) (b : Backend)
      → (revoked_by cfg services r id b).events ≡ b.events
  revoked_events (ok done) id b = refl
  revoked_events (err e) id b = refl

  revoked_tasks :
      (r : Result (Unit {0})) (id : ℕ) (b : Backend)
      → (revoked_by cfg services r id b).tasks ≡ b.tasks
  revoked_tasks (ok done) id b = refl
  revoked_tasks (err e) id b = refl

  stop_task_ok : (id : ℕ) (b : Backend) → (stop_task cfg services id b).0 ≡ ok tt
  unfolding stop_task emit_failed_cancelled
  stop_task_ok id b = rw (emit_eq id) refl

  stop_task_tasks : (id : ℕ) (b : Backend) → (stop_task cfg services id b).1.tasks ≡ b.tasks
  unfolding stop_task emit_failed_cancelled
  stop_task_tasks id b = rw (emit_eq id) (revoked_tasks (services.revoke id) id b)

  after_active :
      (id : ℕ) (t : Task) (b : Backend)
      → is_terminal t.status ≡ false
      → after_cancel cfg services id t true b ≡ (ok tt, (stop_task cfg services id b).1)
  after_active id t b h = ground (arith, stop_task_ok id b)

  repo_eq :
      (now id : ℕ) (u : User) (t : Task) (b : Backend) (done : Bool) (tasks : List Task)
      → seen_by u id b.tasks ≡ t ∷ []
      → cancel_found now (some t) b.tasks ≡ (done, tasks)
      → Repo.cancel_task now id u.id (is_admin u.role) b.tasks ≡ ok (done, tasks)
  unfolding Repo.cancel_task
  repo_eq now id u t b done tasks h e = rw (get_eq id u t b h, e) refl

  row_eq :
      (now id : ℕ) (u : User) (t : Task) (b : Backend) (done : Bool) (tasks : List Task)
      → seen_by u id b.tasks ≡ t ∷ []
      → cancel_found now (some t) b.tasks ≡ (done, tasks)
      → cancel_row cfg services now id u b ≡ (ok done, record b { tasks = tasks })
  unfolding ◌>>=◌
  row_eq now id u t b done tasks h e = rw (repo_eq now id u t b done tasks h e) refl

  -- The first cancellation: the row is cancelled, then the task is stopped.
  abbrev pub first_cancel : (now id : ℕ) → Task → Backend → Backend
  first_cancel now id t b =
      (stop_task cfg services id (record b { tasks = cancel_in now t b.tasks })).1

  pub seen_after :
      (now id : ℕ) (u : User) (t : Task) (b : Backend)
      → seen_by u id b.tasks ≡ t ∷ []
      → seen_by u id (first_cancel now id t b).tasks ≡ cancelled_at now t ∷ []
  seen_after now id u t b h =
      ap (seen_by u id) (stop_task_tasks id (record b { tasks = cancel_in now t b.tasks }))
      ∙ select_cancelled now id (owner_of (some u.id) (is_admin u.role)) t b.tasks h

  pub cancel_active :
      (now id : ℕ) (u : User) (t : Task) (b : Backend)
      → seen_by u id b.tasks ≡ t ∷ []
      → is_terminal t.status ≡ false
      → cancel_task cfg services now id u b
        ≡ (ok (to_response (cancelled_at now t)), first_cancel now id t b)
  unfolding cancel_task
  cancel_active now id u t b h active =
      let b1 : Backend = record b { tasks = cancel_in now t b.tasks } in
      bind_ok _ _ b b t (found_eq id u t b h)
      ∙ bind_ok _ _ b (first_cancel now id t b) tt (
          bind_ok _ _ b b1 true (
            row_eq now id u t b true (cancel_in now t b.tasks) h
              (cancel_found_active now t b.tasks active))
          ∙ after_active id t b1 active)
      ∙ bind_ok _ _ (first_cancel now id t b) (first_cancel now id t b) (cancelled_at now t)
          (found_eq id u (cancelled_at now t) (first_cancel now id t b) (seen_after now id u t b h))

  cancel_again :
      (now id : ℕ) (u : User) (t : Task) (b : Backend)
      → seen_by u id b.tasks ≡ t ∷ []
      → t.status ≡ cancelled
      → cancel_task cfg services now id u b ≡ (ok (to_response t), b)
  unfolding cancel_task
  cancel_again now id u t b h done =
      bind_ok _ _ b b t (found_eq id u t b h)
      ∙ bind_ok _ _ b b tt (
          bind_ok _ _ b b true
            (row_eq now id u t b true b.tasks h (unfold cancel_found in rw done refl))
          ∙ (rw done refl))
      ∙ bind_ok _ _ b b t (found_eq id u t b h)

  -- A user who sees an active task cancels it: the answer is the task, now cancelled, and asking again, at any
  -- later time, gives the same answer and changes nothing: no second event, no second stop.
  pub cancel_task_idempotent :
      (now later id : ℕ) (u : User) (t : Task) (b : Backend)
      → seen_by u id b.tasks ≡ t ∷ []
      → is_terminal t.status ≡ false
      → let b' = (cancel_task cfg services now id u b).1 in
        ((cancel_task cfg services now id u b).0 ≡ ok (to_response (cancelled_at now t)))
        × (cancel_task cfg services later id u b' ≡ (ok (to_response (cancelled_at now t)), b'))
  cancel_task_idempotent now later id u t b h active = rw (cancel_active now id u t b h active) (
    refl,
    cancel_again later id u (cancelled_at now t) (first_cancel now id t b)
        (seen_after now id u t b h) refl,
  )
