-- ===== src/Migrations.antt =====
-- alembic: the migrations of the database.
pub mod Ddl
pub mod InitialSchema
