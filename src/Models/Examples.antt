-- ===== src/Models/Examples.antt =====
-- The theorem about the models at a concrete database.
use agentis_backend.Prelude.{◌≡◌, refl, ◌⊎◌, true, false, Option, none, some}
use agentis_backend.Migrations.Ddl.{Op, create_table, create_index, Database}
use agentis_backend.Migrations.InitialSchema.{upgrade}
use agentis_backend.Migrations.Ddl.{do_run_migrations}
use agentis_backend.Models.{metadata}
use agentis_backend.Models.Schema.{Schema, Conforms}
use agentis_backend.Models.Migrated.{Shows, with_table, with_index, empty, upgrade-Conforms}

-- A database that is its own inspection, and that drops nothing.
abbrev performed : Op → Schema → Option Schema
performed (create_table t) s = some (with_table t s)
performed (create_index i) s = some (with_index i s)
performed _ s = none

abbrev open_database : Database Schema
open_database = record { run = performed }

open_database-Shows : Shows open_database (λ s. s)
open_database-Shows = record { table = λ t s s' e. cc; index = λ i s s' e. cc }

upgrade-Conforms_example :
    let (done, after) = do_run_migrations open_database upgrade empty in
    ((done ≡ false) × (after ≡ empty)) ⊎ ((done ≡ true) × Conforms metadata after)
upgrade-Conforms_example = upgrade-Conforms open_database (λ s. s) open_database-Shows empty refl

run_succeeds : (do_run_migrations open_database upgrade empty).0 ≡ true
unfolding do_run_migrations upgrade
run_succeeds = refl
