-- ===== src/Migrations/InitialSchema/Accounts.antt =====
-- The tables of users, organizations and the audit log that alembic/versions/8fca78cf1516_initial_schema.py
-- creates.
use agentis_backend.Prelude.{none, some, [], ◌∷◌}
use agentis_backend.Migrations.Ddl.{
  Table, uuid, timestamp_tz, string, json, big_integer, integer, enum, required, optional, stamped,
  primary_key, unique_together, foreign_key,
}

abbrev pub audit_log : Table
audit_log = record {
  name = "audit_log";
  columns =
      required "id" uuid
      ∷ required "created_at" timestamp_tz
      ∷ optional "user_id" uuid
      ∷ optional "organization_id" uuid
      ∷ optional "session_id" uuid
      ∷ optional "task_id" uuid
      ∷ required "event_type" (string (some 100))
      ∷ required "event_data" json
      ∷ optional "ip_address" (string (some 45))
      ∷ optional "outcome" (string (some 20))
      ∷ optional "request_id" uuid
      ∷ [];
  constraints = primary_key ("id" ∷ []) ∷ [];
}

abbrev pub organizations : Table
organizations = record {
  name = "organizations";
  columns =
      required "id" uuid
      ∷ required "name" (string (some 255))
      ∷ required "slug" (string (some 100))
      ∷ optional "llm_provider" (string (some 50))
      ∷ optional "llm_model" (string (some 100))
      ∷ optional "allowed_tools" json
      ∷ optional "token_budget_monthly" big_integer
      ∷ required "max_concurrent_tasks" integer
      ∷ optional "deleted_at" timestamp_tz
      ∷ stamped "created_at"
      ∷ stamped "updated_at"
      ∷ [];
  constraints = primary_key ("id" ∷ []) ∷ unique_together none ("slug" ∷ []) ∷ [];
}

abbrev pub users : Table
users = record {
  name = "users";
  columns =
      required "id" uuid
      ∷ required "email" (string (some 255))
      ∷ optional "name" (string (some 255))
      ∷ optional "password_hash" (string (some 255))
      ∷ required "role" (enum "user_role" ("user" ∷ "admin" ∷ "operator" ∷ []))
      ∷ required "language" (string (some 5))
      ∷ required "token_used_this_month" big_integer
      ∷ optional "deleted_at" timestamp_tz
      ∷ stamped "created_at"
      ∷ stamped "updated_at"
      ∷ [];
  constraints = primary_key ("id" ∷ []) ∷ [];
}

abbrev pub api_keys : Table
api_keys = record {
  name = "api_keys";
  columns =
      required "id" uuid
      ∷ required "user_id" uuid
      ∷ required "key_hash" (string (some 64))
      ∷ optional "label" (string (some 100))
      ∷ optional "last_used_at" timestamp_tz
      ∷ optional "expires_at" timestamp_tz
      ∷ optional "revoked_at" timestamp_tz
      ∷ stamped "created_at"
      ∷ stamped "updated_at"
      ∷ [];
  constraints =
      foreign_key ("user_id" ∷ []) ("users.id" ∷ []) (some "CASCADE")
      ∷ primary_key ("id" ∷ [])
      ∷ unique_together none ("key_hash" ∷ [])
      ∷ [];
}

abbrev pub organization_memberships : Table
organization_memberships = record {
  name = "organization_memberships";
  columns =
      required "id" uuid
      ∷ required "organization_id" uuid
      ∷ required "user_id" uuid
      ∷ required "role" (enum "user_role" ("user" ∷ "admin" ∷ "operator" ∷ []))
      ∷ required "created_at" timestamp_tz
      ∷ [];
  constraints =
      foreign_key ("organization_id" ∷ []) ("organizations.id" ∷ []) (some "CASCADE")
      ∷ foreign_key ("user_id" ∷ []) ("users.id" ∷ []) none
      ∷ primary_key ("id" ∷ [])
      ∷ unique_together (some "uq_org_membership") ("organization_id" ∷ "user_id" ∷ [])
      ∷ [];
}

abbrev pub refresh_tokens : Table
refresh_tokens = record {
  name = "refresh_tokens";
  columns =
      required "id" uuid
      ∷ required "user_id" uuid
      ∷ required "token_hash" (string (some 64))
      ∷ required "created_at" timestamp_tz
      ∷ required "expires_at" timestamp_tz
      ∷ optional "revoked_at" timestamp_tz
      ∷ [];
  constraints =
      foreign_key ("user_id" ∷ []) ("users.id" ∷ []) (some "CASCADE")
      ∷ primary_key ("id" ∷ [])
      ∷ unique_together none ("token_hash" ∷ [])
      ∷ [];
}
