-- ===== src/Application.antt =====
-- app/main.py's application with the endpoints of app/routers/auth.py and app/routers/tasks.py: which endpoint
-- depends on which, the session that an endpoint shares with its dependencies, and what is sent.
pub mod Requests
pub mod Presented
pub mod Access
pub mod Startup
mod Examples
use agentis_backend.Prelude.{
  ℕ, String, Bool, true, false, not, ◌&&◌, Option, none, some, List, [], ◌∷◌, leb, ltb,
  if◌then◌else◌, str_eq,
}
use agentis_backend.PyText.{len, take_chars, drop_chars}
use agentis_backend.Config.{Settings}
use agentis_backend.Database.{Session, begin, commit}
use agentis_backend.Http.{ErrorResponse, Exec, Result, ok, err, pure, error_sent, ◌>>=◌, ◌>>◌}
use agentis_backend.Auth.Model.{User, AuthDb, Platform}
use agentis_backend.Auth.Refresh.{refresh, logout}
use agentis_backend.Auth.Keys.{get_current_user, create_api_key, list_api_keys, revoke_api_key}
use agentis_backend.Auth.Login.{
  Gate, FailCounts, login, update_current_user_profile, get_current_user_usage,
}
use agentis_backend.Auth.Register.{Validation, validated, user_response, post_register}
use agentis_backend.Orchestrator.Events.{EventStore}
use agentis_backend.Tasks.Schemas.{TaskCreate, TaskQuery, validate_language}
use agentis_backend.Tasks.Repository.{count_running_tasks}
use agentis_backend.Tasks.Api as Tasks
use agentis_backend.Tasks.Api.{Backend, Services, cancel_row}
use agentis_backend.Tools.Registry.{Registry}
use agentis_backend.Application.Requests.{
  Credentials, Chance, Request, health, register_user, login_user, refresh_tokens, logout_user,
  create_key, show_keys, revoke_key, show_profile, change_profile, show_usage, create_task,
  list_tasks, get_task, cancel_task, stream_task, Reply, healthy, registered, granted, logged_out,
  profile, usage, new_key, keys, key_revoked, task_created, task_list, task, events, status_code,
}

-- What an installation brings with it.
pub record Deployment : Type 0 where
  pub settings : Settings
  pub platform : Platform
  pub validation : Validation
  pub services : Services
  pub isoformat : ℕ → String

-- What the API keeps between requests: the tables of the users, Redis's counters of failed logins, and what
-- the endpoints of the tasks change.
pub record App : Type 0 where
  pub auth : AuthDb
  pub fails : FailCounts
  pub backend : Backend

-- The same during a request, with the request's session.
pub record Served : Type 0 where
  pub auth : Session AuthDb
  pub fails : FailCounts
  pub backend : Backend

abbrev pub opened : App → Served
opened app = record { auth = begin app.auth; fails = app.fails; backend = app.backend }

-- get_db closes the session at the end, whatever came of the request.
abbrev pub closed : Served → App
closed s = record { auth = s.auth.stored; fails = s.fails; backend = s.backend }

abbrev pub on_session : {A : Type 0} → Exec (Session AuthDb) A → Exec Served A
on_session m s = let (r, auth) = m s.auth in (r, record s { auth = auth })

abbrev pub on_gate : {A : Type 0} → Exec Gate A → Exec Served A
on_gate m s =
    let (r, g) = m (record { auth = s.auth; fails = s.fails }) in
    (r, record s { auth = g.auth; fails = g.fails })

abbrev committed_if : Bool → Session AuthDb → Session AuthDb
committed_if true s = (commit s).1
committed_if false s = s

-- An endpoint of the tasks. Its commit stores what its dependencies wrote to the session too.
abbrev pub on_tasks : {A : Type 0} → (commits : Backend → Bool) → Exec Backend A → Exec Served A
on_tasks commits m s =
    let (r, b) = m s.backend in
    (r, record s { auth = committed_if (commits s.backend) s.auth; backend = b })

abbrev is_done : Result Bool × Backend → Bool
is_done (ok done, b) = done
is_done (err e, b) = false

-- What pydantic refuses of the body of a new task and of the limit of a list.
unfoldable pub task_errors : TaskCreate → Option String
task_errors body =
    if not (leb 1 (len body.goal) && leb (len body.goal) 10000)
    then some "goal must have 1 to 10000 characters"
    else if validate_language body.language
    then none
    else some "language must be 'en' or 'fr'"

unfoldable pub limit_errors : TaskQuery → Option String
limit_errors q = if leb 1 q.limit && leb q.limit 100 then none else some "limit must be 1 to 100"

-- The token of an Authorization header: what follows "Bearer ".
unfoldable pub bearer_token : Option String → Option String
unfolding take_chars drop_chars
bearer_token none = none
bearer_token (some header) =
    if str_eq (take_chars 7 header) "Bearer " then some (drop_chars 7 header) else none

-- An endpoint that depends on get_current_user, or one that does not.
pub data Endpoint : Type 0 where
  public : Exec Served Reply → Endpoint
  of_user : (User → Exec Served Reply) → Endpoint

abbrev pub ended : Result Reply × Served → Result Reply × App
ended (r, s) = (r, closed s)

module _ (d : Deployment) (c : Chance) (creds : Credentials) where
  -- Depends(get_current_user)
  unfoldable pub with_user : {A : Type 0} → (User → Exec Served A) → Exec Served A
  with_user endpoint =
      on_session
        (get_current_user d.platform c.now creds.x_api_key (bearer_token creds.authorization))
      >>= endpoint

  commits_new : User → Backend → Bool
  commits_new u b = not (leb 5 (count_running_tasks u.id b.tasks))

  commits_cancelled : ℕ → User → Backend → Bool
  commits_cancelled id u b = is_done (cancel_row d.settings d.services c.now_us id u b)

  abbrev reads : Backend → Bool
  reads b = false

  -- The endpoint of each request.
  unfoldable pub endpoint : Request → Endpoint
  unfolding commits_new commits_cancelled
  endpoint health = public (pure healthy)
  endpoint (register_user body) = public (
      on_session
        (post_register d.settings d.platform d.validation c.now c.user_id c.token_id c.raw body)
      >>= λ (u, grant). pure (registered u grant))
  endpoint (login_user email password) = public (
      on_gate (login d.settings d.platform c.now c.token_id c.raw email password) >>= λ grant.
      pure (granted grant))
  endpoint refresh_tokens = public (
      on_session (refresh d.settings d.platform c.now c.token_id c.raw creds.cookie) >>= λ grant.
      pure (granted grant))
  endpoint logout_user =
      public (on_session (logout d.platform c.now creds.cookie) >>= λ _. pure logged_out)
  endpoint (create_key label) = of_user λ u.
      on_session (create_api_key d.platform c.now c.key_id c.raw label u) >>= λ k. pure (new_key k)
  endpoint show_keys =
      of_user λ u. on_session (list_api_keys d.platform d.isoformat u) >>= λ ks. pure (keys ks)
  endpoint (revoke_key id) =
      of_user λ u. on_session (revoke_api_key d.platform c.now id u) >>= λ _. pure key_revoked
  endpoint show_profile = of_user λ u. pure (profile (user_response d.platform u))
  endpoint (change_profile body) =
      of_user
        λ u. on_session (update_current_user_profile d.platform body u) >>= λ r. pure (profile r)
  endpoint show_usage = of_user λ u. pure (usage (get_current_user_usage u))
  endpoint (create_task body) = of_user λ u.
      validated d.validation (task_errors body) (
        on_tasks (commits_new u)
          (Tasks.create_task d.settings d.services c.task_id c.now_us body u))
      >>= λ t. pure (task_created t)
  endpoint (list_tasks q) = of_user λ u.
      validated d.validation (limit_errors q)
        (on_tasks reads (Tasks.list_tasks d.settings d.services q u))
      >>= λ page. pure (task_list page)
  endpoint (get_task id) =
      of_user λ u. on_tasks reads (Tasks.get_task d.settings d.services id u) >>= λ t. pure (task t)
  endpoint (cancel_task id) = of_user λ u.
      on_tasks (commits_cancelled id u) (Tasks.cancel_task d.settings d.services c.now_us id u)
      >>= λ t. pure (task t)
  endpoint (stream_task id header messages) = of_user λ u.
      on_tasks reads (Tasks.stream_task d.settings d.services id u header messages) >>= λ sent.
      pure (events sent)

  -- An endpoint with its dependency.
  unfoldable pub handle : Endpoint → Exec Served Reply
  unfolding with_user
  handle (public answer) = answer
  handle (of_user answer) = with_user answer

  -- A request from the opening of its session to its end.
  unfoldable pub serve : Request → App → Result Reply × App
  serve r app = ended (handle (endpoint r) (opened app))

-- What the client receives.
pub data Response : Type 0 where
  success : (status : ℕ) → (headers : List (String × String)) → Reply → Response
  error : ErrorResponse → Response

abbrev pub response_of : (request_id : String) → Result Reply → Response
response_of request_id (ok r) = success (status_code r) (("X-Request-ID", request_id) ∷ []) r
response_of request_id (err e) = error (error_sent request_id e)
