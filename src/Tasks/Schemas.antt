-- ===== src/Tasks/Schemas.antt =====
-- app/schemas/task.py, and what the endpoints of app/routers/tasks.py make of their arguments.
use agentis_backend.Prelude.{
  ℕ, zero, suc, String, Bool, true, false, Option, none, some, List, [], ◌∷◌, str_eq, if◌then◌else◌,
  min,
}
use agentis_backend.PyText.{is_empty, split_on}
use agentis_backend.Config.{Settings}
use agentis_backend.Http.{Result, ok, err, crash, http_error, HttpException}
use agentis_backend.Auth.Model.{UserRole, user, admin, operator}
use agentis_backend.Orchestrator.State.{Plan, ℤ, pos, negsuc}
use agentis_backend.Tasks.Model.{
  Task, TaskStatus, submitted, planning, running, waiting_for_input, completed, failed, cancelled,
  status_value,
}

-- TaskCreate, with its TaskOptions. The library checks the length of the goal.
pub record TaskCreate : Type 0 where
  pub goal : String
  pub language : Option String
  pub max_iterations : Option ℤ
  pub allowed_tools : Option (List String)
  pub notify_webhook : Option String

-- validate_language
abbrev pub validate_language : Option String → Bool
validate_language none = true
validate_language (some v) = if str_eq v "en" then true else str_eq v "fr"

pub record TaskResponse : Type 0 where
  pub id : ℕ
  pub goal : String
  pub status : String
  pub language : String
  pub plan : Option Plan
  pub max_iterations : ℤ
  pub result_summary : Option String
  pub error_message : Option String
  pub error_code : Option String
  pub partial : Bool
  pub total_tokens : ℕ
  pub total_steps : ℕ
  pub created_at : ℕ
  pub started_at : Option ℕ
  pub completed_at : Option ℕ

-- _to_response; the stream's path, a function of the id, is left out.
abbrev pub to_response : Task → TaskResponse
to_response t = record {
  id = t.id;
  goal = t.goal;
  status = status_value t.status;
  language = t.language;
  plan = t.plan;
  max_iterations = t.max_iterations;
  result_summary = t.result_summary;
  error_message = t.error_message;
  error_code = t.error_code;
  partial = t.partial;
  total_tokens = t.total_tokens;
  total_steps = t.total_steps;
  created_at = t.created_at;
  started_at = t.started_at;
  completed_at = t.completed_at;
}

pub record TaskListResponse : Type 0 where
  pub «data» : List TaskResponse
  pub next_cursor : Option String
  pub has_more : Bool
  pub total : ℕ

abbrev pub not_found : HttpException
not_found = http_error 404 "not_found" "Task not found"

-- user.role.value in ("admin", "operator")
abbrev pub is_admin : UserRole → Bool
is_admin user = false
is_admin admin = true
is_admin operator = true

-- options.max_iterations or settings.default_max_iterations, up to the cap: only 0 counts as not given, and a
-- negative number passes.
unfoldable pub requested_iterations : Settings → Option ℤ → ℤ
requested_iterations cfg none = pos (min cfg.default_max_iterations cfg.max_iterations_cap)
requested_iterations cfg (some (pos zero)) =
    pos (min cfg.default_max_iterations cfg.max_iterations_cap)
requested_iterations cfg (some (pos (suc n))) = pos (min (suc n) cfg.max_iterations_cap)
requested_iterations cfg (some (negsuc n)) = negsuc n

-- [TaskStatus(s) for s in …], where an unknown value is a ValueError
unfoldable pub parse_status : String → Option TaskStatus
parse_status s =
    if str_eq s "submitted"
    then some submitted
    else if str_eq s "planning"
    then some planning
    else if str_eq s "running"
    then some running
    else if str_eq s "waiting_for_input"
    then some waiting_for_input
    else if str_eq s "completed"
    then some completed
    else if str_eq s "failed"
    then some failed
    else if str_eq s "cancelled"
    then some cancelled
    else none

abbrev cons_status : Option TaskStatus → Option (List TaskStatus) → Option (List TaskStatus)
cons_status (some t) (some ts) = some (t ∷ ts)
cons_status _ _ = none

unfoldable pub parse_statuses : List String → Option (List TaskStatus)
parse_statuses [] = some []
parse_statuses (s ∷ rest) = cons_status (parse_status s) (parse_statuses rest)

-- The query's arguments of list_tasks.
pub record TaskQuery : Type 0 where
  pub after : Option String
  pub limit : ℕ
  pub status : Option String
  pub language : Option String
  pub created_after : Option ℕ
  pub created_before : Option ℕ
  pub search : Option String

-- `if status:` leaves out an empty text.
unfoldable pub statuses_of : Option String → Result (Option (List TaskStatus))
statuses_of none = ok none
statuses_of (some s) = if is_empty s then ok none else elim (parse_statuses (split_on b',' s)) [
  | none ↦ err (crash "ValueError")
  | some l ↦ ok (some l)
]
