-- ===== src/Models/Work.antt =====
-- app/models/task.py: what its classes declare of the database.
use agentis_backend.Prelude.{String, none, some, [], ◌∷◌, ◌++◌, map}
use agentis_backend.Tasks.Model.{TaskStatus, status_value}
use agentis_backend.Orchestrator.Events.{TaskStepType}
use agentis_backend.Migrations.Ddl.{
  ColumnType, Declared, uuid, timestamp_tz, string, json, big_integer, integer, boolean, enum,
  required, optional, primary_key, unique_together, foreign_key, index_on, where_live,
}
use agentis_backend.Models.Accounts.{timestamp_mixin}

-- The members of the two enumerations, in their order: Enum stores their names.
abbrev pub task_status : ColumnType
task_status = enum "task_status" (
    map status_value (
      TaskStatus.submitted ∷ TaskStatus.planning ∷ TaskStatus.running ∷ TaskStatus.waiting_for_input
      ∷ TaskStatus.completed ∷ TaskStatus.failed ∷ TaskStatus.cancelled ∷ []))

abbrev pub step_type_value : TaskStepType → String
step_type_value TaskStepType.think = "think"
step_type_value TaskStepType.tool_call = "tool_call"
step_type_value TaskStepType.tool_result = "tool_result"
step_type_value TaskStepType.reflect = "reflect"
step_type_value TaskStepType.plan_update = "plan_update"
step_type_value TaskStepType.user_input = "user_input"
step_type_value TaskStepType.context_summarized = "context_summarized"
step_type_value TaskStepType.report = "report"

abbrev pub task_step_type : ColumnType
task_step_type = enum "task_step_type" (
    map step_type_value (
      TaskStepType.think ∷ TaskStepType.tool_call ∷ TaskStepType.tool_result ∷ TaskStepType.reflect
      ∷ TaskStepType.plan_update ∷ TaskStepType.user_input ∷ TaskStepType.context_summarized
      ∷ TaskStepType.report ∷ []))

-- Task
abbrev pub task : Declared
task = record {
  table = record {
    name = "tasks";
    columns =
        (required "id" uuid
          ∷ required "user_id" uuid
          ∷ optional "organization_id" uuid
          ∷ required "goal" (string (some 10000))
          ∷ required "status" task_status
          ∷ required "language" (string (some 5))
          ∷ optional "plan" json
          ∷ optional "allowed_tools" json
          ∷ required "max_iterations" integer
          ∷ optional "result_summary" (string none)
          ∷ optional "error_message" (string (some 1000))
          ∷ optional "error_code" (string (some 50))
          ∷ required "partial" boolean
          ∷ optional "notify_webhook" (string (some 500))
          ∷ required "total_tokens" big_integer
          ∷ required "total_steps" integer
          ∷ optional "started_at" timestamp_tz
          ∷ optional "completed_at" timestamp_tz
          ∷ optional "deleted_at" timestamp_tz
          ∷ [])
        ++ timestamp_mixin;
    constraints =
        primary_key ("id" ∷ [])
        ∷ foreign_key ("user_id" ∷ []) ("users.id" ∷ []) none
        ∷ foreign_key ("organization_id" ∷ []) ("organizations.id" ∷ []) none
        ∷ [];
  };
  indexes =
      index_on "tasks" "idx_tasks_user_status" ("user_id" ∷ "status" ∷ "created_at" ∷ [])
      ∷ where_live (index_on "tasks" "idx_tasks_status" ("status" ∷ []))
      ∷ where_live (index_on "tasks" "idx_tasks_active" ("deleted_at" ∷ []))
      ∷ index_on "tasks" "idx_tasks_org" ("organization_id" ∷ "created_at" ∷ [])
      ∷ [];
}

-- TaskStep
abbrev pub task_step : Declared
task_step = record {
  table = record {
    name = "task_steps";
    columns =
        required "id" uuid
        ∷ required "task_id" uuid
        ∷ required "step_number" integer
        ∷ required "step_type" task_step_type
        ∷ required "content" json
        ∷ required "tokens_used" integer
        ∷ optional "duration_ms" integer
        ∷ required "created_at" timestamp_tz
        ∷ [];
    constraints =
        primary_key ("id" ∷ [])
        ∷ foreign_key ("task_id" ∷ []) ("tasks.id" ∷ []) (some "CASCADE")
        ∷ unique_together (some "uq_task_step_number") ("task_id" ∷ "step_number" ∷ [])
        ∷ [];
  };
  indexes = index_on "task_steps" "idx_task_steps_task" ("task_id" ∷ "step_number" ∷ []) ∷ [];
}

-- Artifact
abbrev pub artifact : Declared
artifact = record {
  table = record {
    name = "artifacts";
    columns =
        required "id" uuid
        ∷ required "task_id" uuid
        ∷ required "name" (string (some 255))
        ∷ optional "mime_type" (string (some 100))
        ∷ required "size_bytes" big_integer
        ∷ required "storage_key" (string (some 500))
        ∷ required "created_at" timestamp_tz
        ∷ optional "expires_at" timestamp_tz
        ∷ optional "deleted_at" timestamp_tz
        ∷ [];
    constraints =
        primary_key ("id" ∷ [])
        ∷ foreign_key ("task_id" ∷ []) ("tasks.id" ∷ []) (some "CASCADE")
        ∷ [];
  };
  indexes =
      index_on "artifacts" "idx_artifacts_task" ("task_id" ∷ [])
      ∷ where_live (index_on "artifacts" "idx_artifacts_expiry" ("expires_at" ∷ []))
      ∷ [];
}
