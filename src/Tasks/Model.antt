-- ===== src/Tasks/Model.antt =====
-- app/models/task.py: the tasks and their statuses.
use agentis_backend.Prelude.{ℕ, String, Bool, true, false, Option, List}
use agentis_backend.Orchestrator.State.{Plan, ℤ}

pub data TaskStatus : Type 0 where
  submitted planning running waiting_for_input completed failed cancelled : TaskStatus

abbrev pub status_value : TaskStatus → String
status_value submitted = "submitted"
status_value planning = "planning"
status_value running = "running"
status_value waiting_for_input = "waiting_for_input"
status_value completed = "completed"
status_value failed = "failed"
status_value cancelled = "cancelled"

-- A UUID is its 128-bit number, and a time counts microseconds.
pub record Task : Type 0 where
  pub id : ℕ
  pub user_id : ℕ
  pub organization_id : Option ℕ
  pub goal : String
  pub status : TaskStatus
  pub language : String
  pub plan : Option Plan
  pub allowed_tools : Option (List String)
  pub max_iterations : ℤ
  pub result_summary : Option String
  pub error_message : Option String
  pub error_code : Option String
  pub partial : Bool
  pub notify_webhook : Option String
  pub total_tokens : ℕ
  pub total_steps : ℕ
  pub created_at : ℕ
  pub started_at : Option ℕ
  pub completed_at : Option ℕ
  pub deleted_at : Option ℕ

-- completed, failed or cancelled: the statuses that `run_task` does not run and `stream_task` ends at.
abbrev pub is_terminal : TaskStatus → Bool
is_terminal completed = true
is_terminal failed = true
is_terminal cancelled = true
is_terminal _ = false
