-- ===== src/Models.antt =====
-- app/models: the tables that the models declare, in the terms of the migrations.
pub mod Accounts
pub mod Work
pub mod Schema
pub mod Migrated
mod Examples
use agentis_backend.Prelude.{List, [], ◌∷◌}
use agentis_backend.Migrations.Ddl.{Declared}
use agentis_backend.Models.Accounts.{
  user, refresh_token, api_key, organization, organization_membership, audit_log,
}
use agentis_backend.Models.Work.{task, task_step, artifact}

-- Base.metadata, once app.models has imported every model.
unfoldable pub metadata : List Declared
metadata =
    user ∷ refresh_token ∷ api_key ∷ task ∷ task_step ∷ artifact ∷ organization
    ∷ organization_membership ∷ audit_log ∷ []
