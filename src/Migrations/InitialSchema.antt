-- ===== src/Migrations/InitialSchema.antt =====
-- alembic/versions/8fca78cf1516_initial_schema.py: the first migration, up and down.
pub mod Accounts
pub mod Work
pub mod Inverse
mod Examples
use agentis_backend.Prelude.{Bool, true, false, Option, none, some, List, [], ◌∷◌}
use agentis_backend.Migrations.Ddl.{
  Op, create_table, create_index, drop_index, drop_table, index_on, where_live,
}
use agentis_backend.Migrations.InitialSchema.Accounts.{
  audit_log, organizations, users, api_keys, organization_memberships, refresh_tokens,
}
use agentis_backend.Migrations.InitialSchema.Work.{tasks, artifacts, task_steps}

-- upgrade
unfoldable pub upgrade : List Op
upgrade =
    create_table audit_log
    ∷ create_index (index_on "audit_log" "idx_audit_event_type" ("event_type" ∷ "created_at" ∷ []))
    ∷ create_index (index_on "audit_log" "idx_audit_session" ("session_id" ∷ []))
    ∷ create_index (index_on "audit_log" "idx_audit_task" ("task_id" ∷ "created_at" ∷ []))
    ∷ create_index (index_on "audit_log" "idx_audit_user_time" ("user_id" ∷ "created_at" ∷ []))
    ∷ create_table organizations
    ∷ create_table users
    ∷ create_index (where_live (index_on "users" "idx_users_active" ("deleted_at" ∷ [])))
    ∷ create_index
        (record (index_on "users" "idx_users_email_lower" ("lower(email)" ∷ [])) { unique = true })
    ∷ create_table api_keys
    ∷ create_index (index_on "api_keys" "idx_api_keys_hash" ("key_hash" ∷ []))
    ∷ create_index (index_on "api_keys" "idx_api_keys_user" ("user_id" ∷ []))
    ∷ create_table organization_memberships
    ∷ create_table refresh_tokens
    ∷ create_index (index_on "refresh_tokens" "idx_refresh_tokens_hash" ("token_hash" ∷ []))
    ∷ create_index (index_on "refresh_tokens" "idx_refresh_tokens_user" ("user_id" ∷ []))
    ∷ create_table tasks
    ∷ create_index (where_live (index_on "tasks" "idx_tasks_active" ("deleted_at" ∷ [])))
    ∷ create_index (index_on "tasks" "idx_tasks_org" ("organization_id" ∷ "created_at" ∷ []))
    ∷ create_index (where_live (index_on "tasks" "idx_tasks_status" ("status" ∷ [])))
    ∷ create_index
        (index_on "tasks" "idx_tasks_user_status" ("user_id" ∷ "status" ∷ "created_at" ∷ []))
    ∷ create_table artifacts
    ∷ create_index (where_live (index_on "artifacts" "idx_artifacts_expiry" ("expires_at" ∷ [])))
    ∷ create_index (index_on "artifacts" "idx_artifacts_task" ("task_id" ∷ []))
    ∷ create_table task_steps
    ∷ create_index (index_on "task_steps" "idx_task_steps_task" ("task_id" ∷ "step_number" ∷ []))
    ∷ []

-- downgrade. The condition that some drop_index calls repeat has no effect on the dropping.
unfoldable pub downgrade : List Op
downgrade =
    drop_index "idx_task_steps_task" "task_steps"
    ∷ drop_table "task_steps"
    ∷ drop_index "idx_artifacts_task" "artifacts"
    ∷ drop_index "idx_artifacts_expiry" "artifacts"
    ∷ drop_table "artifacts"
    ∷ drop_index "idx_tasks_user_status" "tasks"
    ∷ drop_index "idx_tasks_status" "tasks"
    ∷ drop_index "idx_tasks_org" "tasks"
    ∷ drop_index "idx_tasks_active" "tasks"
    ∷ drop_table "tasks"
    ∷ drop_index "idx_refresh_tokens_user" "refresh_tokens"
    ∷ drop_index "idx_refresh_tokens_hash" "refresh_tokens"
    ∷ drop_table "refresh_tokens"
    ∷ drop_table "organization_memberships"
    ∷ drop_index "idx_api_keys_user" "api_keys"
    ∷ drop_index "idx_api_keys_hash" "api_keys"
    ∷ drop_table "api_keys"
    ∷ drop_index "idx_users_email_lower" "users"
    ∷ drop_index "idx_users_active" "users"
    ∷ drop_table "users"
    ∷ drop_table "organizations"
    ∷ drop_index "idx_audit_user_time" "audit_log"
    ∷ drop_index "idx_audit_task" "audit_log"
    ∷ drop_index "idx_audit_session" "audit_log"
    ∷ drop_index "idx_audit_event_type" "audit_log"
    ∷ drop_table "audit_log"
    ∷ []
