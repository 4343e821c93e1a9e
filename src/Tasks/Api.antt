-- ===== src/Tasks/Api.antt =====
-- app/routers/tasks.py: the endpoints of the tasks.
pub mod Limits
pub mod Cancel
pub mod Stream
mod Examples
use agentis_backend.Prelude.{
  ℕ, zero, suc, ◌+◌, String, Bool, true, false, not, Option, none, some, List, [], ◌∷◌, ◌++◌,
  length, map, leb, str_eq, if◌then◌else◌, or_else, is_none, min,
}
use agentis_backend.PyText.{◌⧺◌, is_empty, split_on, all_digits, int_onto}
use agentis_backend.Config.{Settings}
use agentis_backend.Http.{
  Result, ok, err, crash, Exec, pure, raise, fail, gets, lift, modify, http_error, HttpException,
  ◌>>=◌, ◌>>◌,
}
use agentis_backend.Auth.Model.{User, UserRole, user, admin, operator}
use agentis_backend.Sandbox.{Docker, Manager, destroy_session}
use agentis_backend.Orchestrator.State.{Plan, ℤ, pos, negsuc}
use agentis_backend.Orchestrator.Events.{Event, EventStore, emit_failed_cancelled, replay}
use agentis_backend.Tasks.Model.{
  Task, TaskStatus, submitted, planning, running, waiting_for_input, completed, failed, cancelled,
  status_value, is_terminal,
}
use agentis_backend.Tasks.Schemas.{
  TaskCreate, TaskResponse, to_response, TaskListResponse, not_found, is_admin,
  requested_iterations, TaskQuery, statuses_of,
}
use agentis_backend.Tasks.Streaming.{Sent, event_generator, after_step}
use agentis_backend.Tasks.Repository as Repo
use agentis_backend.Tasks.Repository.{Filters, NewTask, count_running_tasks}
use agentis_backend.Tasks.Cursor.{CursorText}

-- The tables and services that the endpoints change: the tasks, their steps and events, the tasks handed to
-- Celery and those revoked, and the sandboxes of this process.
pub record Backend : Type 0 where
  pub tasks : List Task
  pub events : EventStore
  pub queued : List ℕ
  pub revoked : List ℕ
  pub sandboxes : Manager

-- What the endpoints call outside: Celery's `delay` and `control.revoke`, with their exceptions, docker,
-- the cursor text and PostgreSQL's text search.
pub record Services : Type 0 where
  pub delay : ℕ → Result (Unit {0})
  pub revoke : ℕ → Result (Unit {0})
  pub docker : Docker
  pub cursor_text : CursorText
  pub matches : String → String → Bool

module _ (cfg : Settings) (services : Services) where
  -- The arguments that create_task gives the repository.
  abbrev pub new_task : (id now : ℕ) → TaskCreate → User → NewTask
  new_task id now body u = record {
    id = id;
    created_at = now;
    user_id = u.id;
    goal = body.goal;
    language = elim body.language [
      | none ↦ u.language
      | some l ↦ if is_empty l then u.language else l
    ];
    max_iterations = requested_iterations cfg body.max_iterations;
    allowed_tools = body.allowed_tools;
    organization_id = none;
    notify_webhook = body.notify_webhook;
  }

  -- The row is committed before Celery is called, whose exception is the endpoint's.
  abbrev pub submit : Result (Unit {0}) → Task × List Task → Exec Backend TaskResponse
  submit (err e) (task, tasks) b = (err e, record b { tasks = tasks })
  submit (ok done) (task, tasks) b =
      (ok (to_response task), record b { tasks = tasks; queued = b.queued ++ task.id ∷ [] })

  -- create_task, with the id and the time that the new row gets.
  unfoldable pub create_task : (id now : ℕ) → TaskCreate → User → Exec Backend TaskResponse
  create_task id now body u b =
      if leb 5 (count_running_tasks u.id b.tasks)
      then raise
          (http_error 429 "concurrency_limit"
            "You have reached the maximum of 5 concurrent running tasks.")
          b
      else submit (services.delay id) (Repo.create_task (new_task id now body u) b.tasks) b

  abbrev list_response : List Task × Option String → TaskListResponse
  list_response (rows, next) = record {
    «data» = map to_response rows;
    next_cursor = next;
    has_more = not (is_none next);
    total = length rows;
  }

  -- list_tasks
  unfoldable pub list_tasks : TaskQuery → User → Exec Backend TaskListResponse
  unfolding ◌>>=◌
  list_tasks q u = lift (statuses_of q.status) >>= λ statuses. gets (λ b. b.tasks) >>= λ tasks.
      lift (
        Repo.list_tasks services.cursor_text services.matches
          (record {
            owner = some u.id;
            statuses = statuses;
            language = q.language;
            created_after = q.created_after;
            created_before = q.created_before;
            search = q.search;
            include_deleted = false;
          })
          q.after q.limit tasks)
      >>= λ page. pure (list_response page)

  abbrev pub or_not_found : Option Task → Exec Backend Task
  or_not_found none = raise not_found
  or_not_found (some t) = pure t

  -- The repository's get_task, and the 404 that follows where it finds nothing.
  abbrev pub found : ℕ → User → Exec Backend Task
  found id u = gets (λ b. b.tasks) >>= λ tasks.
      lift (Repo.get_task id (some u.id) (is_admin u.role) tasks) >>= or_not_found

  -- get_task
  unfoldable pub get_task : ℕ → User → Exec Backend TaskResponse
  get_task id u = found id u >>= λ t. pure (to_response t)

  -- The row of cancel_task, written and committed.
  abbrev pub written : Bool × List Task → Exec Backend Bool
  written (done, tasks) b = (ok done, record b { tasks = tasks })

  abbrev pub cancel_row : (now : ℕ) → ℕ → User → Exec Backend Bool
  cancel_row now id u = gets (λ b. b.tasks) >>= λ tasks.
      lift (Repo.cancel_task now id u.id (is_admin u.role) tasks) >>= written

  abbrev pub revoked_by : Result (Unit {0}) → ℕ → Backend → Backend
  revoked_by (err e) id b = b
  revoked_by (ok done) id b = record b { revoked = b.revoked ++ id ∷ [] }

  abbrev pub announced : Result ℕ → Exec Backend Unit
  announced (err e) b = (err e, b)
  announced (ok number) b = (ok tt, b)

  -- Celery's task is revoked, whatever that raises, the sandbox is stopped and the event emitted.
  unfoldable pub stop_task : ℕ → Exec Backend Unit
  stop_task id b =
      let b' = revoked_by (services.revoke id) id b in
      let (r, events) = emit_failed_cancelled id b'.events in
      announced r (record b' {
        events = events;
        sandboxes = destroy_session cfg services.docker id b'.sandboxes;
      })

  abbrev pub not_cancellable : Task → HttpException
  not_cancellable t =
      http_error 409 "not_cancellable"
        ("Task in status " ⧺ status_value t.status ⧺ " cannot be cancelled")

  -- What follows the cancelled row: nothing the second time.
  abbrev pub after_cancel : ℕ → Task → Bool → Exec Backend Unit
  after_cancel id existing false = raise (not_cancellable existing)
  after_cancel id existing true = elim existing.status [ cancelled ↦ pure tt | _ ↦ stop_task id ]

  -- cancel_task. The task that is read at the end is there, since nothing removes it.
  unfoldable pub cancel_task : (now : ℕ) → ℕ → User → Exec Backend TaskResponse
  cancel_task now id u = found id u >>= λ existing.
      cancel_row now id u >>= after_cancel id existing >>= λ done.
      found id u >>= λ t. pure (to_response t)

module _ (cfg : Settings) (services : Services) where
  -- stream_task, with the messages that come in later, where no request comes between its two readings of
  -- the task.
  unfoldable pub stream_task :
      ℕ → User → Option String → List (Option Event) → Exec Backend (List Sent)
  unfolding event_generator after_step ◌>>=◌
  stream_task id u header messages = found cfg services id u >>= λ t.
      lift (after_step header) >>= λ after. gets (λ b. b.tasks) >>= λ tasks.
      lift (Repo.get_task id (some u.id) (is_admin u.role) tasks) >>= λ again.
      gets (λ b. b.events) >>= λ events. pure (event_generator id after events again messages)
