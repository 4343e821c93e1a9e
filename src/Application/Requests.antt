-- ===== src/Application/Requests.antt =====
-- The requests that app/routers/auth.py, app/routers/tasks.py and app/main.py declare endpoints for, with their
-- parameters read, and the replies of the endpoints.
use agentis_backend.Prelude.{ℕ, String, Bool, true, false, Option, List}
use agentis_backend.Auth.Model.{TokenGrant}
use agentis_backend.Auth.Keys.{NewKey, ApiKeyResponse}
use agentis_backend.Auth.Login.{UserProfileUpdate}
use agentis_backend.Auth.Register.{RegisterRequest, UserResponse}
use agentis_backend.Orchestrator.Events.{Event}
use agentis_backend.Tasks.Schemas.{TaskCreate, TaskResponse, TaskQuery, TaskListResponse}
use agentis_backend.Tasks.Streaming.{Sent}

-- The headers X-API-Key and Authorization, and the cookie of the refresh token.
pub record Credentials : Type 0 where
  pub x_api_key : Option String
  pub authorization : Option String
  pub cookie : Option String

-- The clock, in seconds and in microseconds, and the random choices of one request.
pub record Chance : Type 0 where
  pub now : ℕ
  pub now_us : ℕ
  pub user_id : ℕ
  pub token_id : ℕ
  pub key_id : ℕ
  pub task_id : ℕ
  pub raw : String

-- GET /api/v1/health; under /api/v1/auth POST /register, /login, /refresh, /logout and /api-keys, GET
-- /api-keys, DELETE /api-keys/{key_id}, GET and PATCH /users/me, GET /users/me/usage; under /api/v1/tasks
-- POST and GET, GET and DELETE /{task_id}, GET /{task_id}/stream.
pub data Request : Type 0 where
  health : Request
  register_user : RegisterRequest → Request
  login_user : (email password : String) → Request
  refresh_tokens logout_user : Request
  create_key : (label : Option String) → Request
  show_keys : Request
  revoke_key : (key_id : String) → Request
  show_profile : Request
  change_profile : UserProfileUpdate → Request
  show_usage : Request
  create_task : TaskCreate → Request
  list_tasks : TaskQuery → Request
  get_task cancel_task : (task_id : ℕ) → Request
  stream_task : (task_id : ℕ) → (last_event_id : Option String) → List (Option Event) → Request

-- What is served without a user: the health of the API, and what gives or ends a session.
abbrev pub is_public : Request → Bool
is_public health = true
is_public (register_user body) = true
is_public (login_user email password) = true
is_public refresh_tokens = true
is_public logout_user = true
is_public _ = false

pub data Reply : Type 0 where
  healthy : Reply
  registered : UserResponse → TokenGrant → Reply
  granted : TokenGrant → Reply
  logged_out : Reply
  profile : UserResponse → Reply
  usage : ℕ → Reply
  new_key : NewKey → Reply
  keys : List ApiKeyResponse → Reply
  key_revoked : Reply
  task_created task : TaskResponse → Reply
  task_list : TaskListResponse → Reply
  events : List Sent → Reply

-- The status_code that the decorators give.
abbrev pub status_code : Reply → ℕ
status_code (registered u grant) = 201
status_code (new_key k) = 201
status_code (task_created t) = 201
status_code key_revoked = 204
status_code _ = 200
