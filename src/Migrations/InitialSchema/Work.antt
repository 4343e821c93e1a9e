-- ===== src/Migrations/InitialSchema/Work.antt =====
-- The tables of tasks, their steps and their artifacts that alembic/versions/8fca78cf1516_initial_schema.py
-- creates.
use agentis_backend.Prelude.{none, some, [], ◌∷◌}
use agentis_backend.Migrations.Ddl.{
  Table, uuid, timestamp_tz, string, json, big_integer, integer, boolean, enum, required, optional,
  stamped, primary_key, unique_together, foreign_key,
}

abbrev pub tasks : Table
tasks = record {
  name = "tasks";
  columns =
      required "id" uuid
      ∷ required "user_id" uuid
      ∷ optional "organization_id" uuid
      ∷ required "goal" (string (some 10000))
      ∷ required "status" (
          enum "task_status" (
            "submitted" ∷ "planning" ∷ "running" ∷ "waiting_for_input" ∷ "completed" ∷ "failed"
            ∷ "cancelled" ∷ []))
      ∷ required "language" (string (some 5))
      ∷ optional "plan" json
      ∷ optional "allowed_tools" json
      ∷ required "max_iterations" integer
      ∷ optional "result_summary" (string none)
      ∷ optional "error_message" (string (some 1000))
      ∷ optional "error_code" (string (some 50))
      ∷ required "partial" boolean
      ∷ optional "notify_webhook" (string (some 500))
      ∷ required "total_tokens" big_integer
      ∷ required "total_steps" integer
      ∷ optional "started_at" timestamp_tz
      ∷ optional "completed_at" timestamp_tz
      ∷ optional "deleted_at" timestamp_tz
      ∷ stamped "created_at"
      ∷ stamped "updated_at"
      ∷ [];
  constraints =
      foreign_key ("organization_id" ∷ []) ("organizations.id" ∷ []) none
      ∷ foreign_key ("user_id" ∷ []) ("users.id" ∷ []) none
      ∷ primary_key ("id" ∷ [])
      ∷ [];
}

abbrev pub artifacts : Table
artifacts = record {
  name = "artifacts";
  columns =
      required "id" uuid
      ∷ required "task_id" uuid
      ∷ required "name" (string (some 255))
      ∷ optional "mime_type" (string (some 100))
      ∷ required "size_bytes" big_integer
      ∷ required "storage_key" (string (some 500))
      ∷ required "created_at" timestamp_tz
      ∷ optional "expires_at" timestamp_tz
      ∷ optional "deleted_at" timestamp_tz
      ∷ [];
  constraints =
      foreign_key ("task_id" ∷ []) ("tasks.id" ∷ []) (some "CASCADE")
      ∷ primary_key ("id" ∷ [])
      ∷ [];
}

abbrev pub task_steps : Table
task_steps = record {
  name = "task_steps";
  columns =
      required "id" uuid
      ∷ required "task_id" uuid
      ∷ required "step_number" integer
      ∷ required "step_type" (
          enum "task_step_type" (
            "think" ∷ "tool_call" ∷ "tool_result" ∷ "reflect" ∷ "plan_update" ∷ "user_input"
            ∷ "context_summarized" ∷ "report" ∷ []))
      ∷ required "content" json
      ∷ required "tokens_used" integer
      ∷ optional "duration_ms" integer
      ∷ required "created_at" timestamp_tz
      ∷ [];
  constraints =
      foreign_key ("task_id" ∷ []) ("tasks.id" ∷ []) (some "CASCADE")
      ∷ primary_key ("id" ∷ [])
      ∷ unique_together (some "uq_task_step_number") ("task_id" ∷ "step_number" ∷ [])
      ∷ [];
}
