-- ===== src/Models/Accounts.antt =====
-- app/models/base.py, user.py, org.py and audit.py: what their classes declare of the database.
use agentis_backend.Prelude.{none, some, List, [], ◌∷◌, ◌++◌, map, true}
use agentis_backend.Auth.Model.{UserRole, role_value}
use agentis_backend.Migrations.Ddl.{
  Column, ColumnType, Declared, uuid, timestamp_tz, string, json, big_integer, integer, enum,
  required, optional, stamped, primary_key, unique_together, foreign_key, index_on, where_live,
}

-- TimestampMixin. Its onupdate is SQLAlchemy's, and no part of the table.
abbrev pub timestamp_mixin : List Column
timestamp_mixin = stamped "created_at" ∷ stamped "updated_at" ∷ []

-- Enum(UserRole, name="user_role"): the names of the members, which are their values.
abbrev pub user_role : ColumnType
unfolding role_value
user_role =
    enum "user_role" (map role_value (UserRole.user ∷ UserRole.admin ∷ UserRole.operator ∷ []))

-- User
abbrev pub user : Declared
unfolding role_value
user = record {
  table = record {
    name = "users";
    columns =
        (required "id" uuid
          ∷ required "email" (string (some 255))
          ∷ optional "name" (string (some 255))
          ∷ optional "password_hash" (string (some 255))
          ∷ required "role" user_role
          ∷ required "language" (string (some 5))
          ∷ required "token_used_this_month" big_integer
          ∷ optional "deleted_at" timestamp_tz
          ∷ [])
        ++ timestamp_mixin;
    constraints = primary_key ("id" ∷ []) ∷ [];
  };
  indexes =
      record (index_on "users" "idx_users_email_lower" ("lower(email)" ∷ [])) { unique = true }
      ∷ where_live (index_on "users" "idx_users_active" ("deleted_at" ∷ []))
      ∷ [];
}

-- RefreshToken
abbrev pub refresh_token : Declared
refresh_token = record {
  table = record {
    name = "refresh_tokens";
    columns =
        required "id" uuid
        ∷ required "user_id" uuid
        ∷ required "token_hash" (string (some 64))
        ∷ required "created_at" timestamp_tz
        ∷ required "expires_at" timestamp_tz
        ∷ optional "revoked_at" timestamp_tz
        ∷ [];
    constraints =
        primary_key ("id" ∷ [])
        ∷ foreign_key ("user_id" ∷ []) ("users.id" ∷ []) (some "CASCADE")
        ∷ unique_together none ("token_hash" ∷ [])
        ∷ [];
  };
  indexes =
      index_on "refresh_tokens" "idx_refresh_tokens_hash" ("token_hash" ∷ [])
      ∷ index_on "refresh_tokens" "idx_refresh_tokens_user" ("user_id" ∷ [])
      ∷ [];
}

-- ApiKey
abbrev pub api_key : Declared
api_key = record {
  table = record {
    name = "api_keys";
    columns =
        (required "id" uuid
          ∷ required "user_id" uuid
          ∷ required "key_hash" (string (some 64))
          ∷ optional "label" (string (some 100))
          ∷ optional "last_used_at" timestamp_tz
          ∷ optional "expires_at" timestamp_tz
          ∷ optional "revoked_at" timestamp_tz
          ∷ [])
        ++ timestamp_mixin;
    constraints =
        primary_key ("id" ∷ [])
        ∷ foreign_key ("user_id" ∷ []) ("users.id" ∷ []) (some "CASCADE")
        ∷ unique_together none ("key_hash" ∷ [])
        ∷ [];
  };
  indexes =
      index_on "api_keys" "idx_api_keys_hash" ("key_hash" ∷ [])
      ∷ index_on "api_keys" "idx_api_keys_user" ("user_id" ∷ [])
      ∷ [];
}

-- Organization
abbrev pub organization : Declared
organization = record {
  table = record {
    name = "organizations";
    columns =
        (required "id" uuid
          ∷ required "name" (string (some 255))
          ∷ required "slug" (string (some 100))
          ∷ optional "llm_provider" (string (some 50))
          ∷ optional "llm_model" (string (some 100))
          ∷ optional "allowed_tools" json
          ∷ optional "token_budget_monthly" big_integer
          ∷ required "max_concurrent_tasks" integer
          ∷ optional "deleted_at" timestamp_tz
          ∷ [])
        ++ timestamp_mixin;
    constraints = primary_key ("id" ∷ []) ∷ unique_together none ("slug" ∷ []) ∷ [];
  };
  indexes = [];
}

-- OrganizationMembership
abbrev pub organization_membership : Declared
unfolding role_value
organization_membership = record {
  table = record {
    name = "organization_memberships";
    columns =
        required "id" uuid
        ∷ required "organization_id" uuid
        ∷ required "user_id" uuid
        ∷ required "role" user_role
        ∷ required "created_at" timestamp_tz
        ∷ [];
    constraints =
        primary_key ("id" ∷ [])
        ∷ foreign_key ("organization_id" ∷ []) ("organizations.id" ∷ []) (some "CASCADE")
        ∷ foreign_key ("user_id" ∷ []) ("users.id" ∷ []) none
        ∷ unique_together (some "uq_org_membership") ("organization_id" ∷ "user_id" ∷ [])
        ∷ [];
  };
  indexes = [];
}

-- AuditLog
abbrev pub audit_log : Declared
audit_log = record {
  table = record {
    name = "audit_log";
    columns =
        required "id" uuid
        ∷ required "created_at" timestamp_tz
        ∷ optional "user_id" uuid
        ∷ optional "organization_id" uuid
        ∷ optional "session_id" uuid
        ∷ optional "task_id" uuid
        ∷ required "event_type" (string (some 100))
        ∷ required "event_data" json
        ∷ optional "ip_address" (string (some 45))
        ∷ optional "outcome" (string (some 20))
        ∷ optional "request_id" uuid
        ∷ [];
    constraints = primary_key ("id" ∷ []) ∷ [];
  };
  indexes =
      index_on "audit_log" "idx_audit_user_time" ("user_id" ∷ "created_at" ∷ [])
      ∷ index_on "audit_log" "idx_audit_task" ("task_id" ∷ "created_at" ∷ [])
      ∷ index_on "audit_log" "idx_audit_event_type" ("event_type" ∷ "created_at" ∷ [])
      ∷ index_on "audit_log" "idx_audit_session" ("session_id" ∷ [])
      ∷ [];
}
