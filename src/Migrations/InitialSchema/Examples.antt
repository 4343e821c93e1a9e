-- ===== src/Migrations/InitialSchema/Examples.antt =====
-- The theorem about the first migration at a concrete database.
use agentis_backend.Prelude.{
  ◌≡◌, refl, sym, ap, ◌∙◌, String, Option, none, some, List, [], ◌∷◌, str_eq, str_eq_refl, ◌&&◌,
  if◌then◌else◌,
}
use agentis_backend.Migrations.Ddl.{
  Op, create_table, create_index, drop_index, drop_table, Database, migrate, Table, Index,
}
use agentis_backend.Models.Schema.{Schema}
use agentis_backend.Migrations.InitialSchema.{upgrade, downgrade}
use agentis_backend.Migrations.InitialSchema.Inverse.{Undoes, upgrade-downgrade}

-- A database that keeps the tables and indexes, the newest first, of which it can only drop the newest, and the
-- tables whose enum types were ever created, which stay.
pub record Kept : Type 0 where
  pub schema : Schema
  pub types : List Table

abbrev without_table : String → List Table → Kept → Option Kept
without_table name [] k = none
without_table name (t ∷ ts) k =
    if str_eq t.name name
    then some (record k { schema = record k.schema { tables = ts } })
    else none

abbrev without_index : (name table : String) → List Index → Kept → Option Kept
without_index name table [] k = none
without_index name table (i ∷ is) k =
    if str_eq i.name name && str_eq i.table table
    then some (record k { schema = record k.schema { indexes = is } })
    else none

abbrev performed : Op → Kept → Option Kept
performed (create_table t) k =
    some (record { schema = record k.schema { tables = t ∷ k.schema.tables }; types = t ∷ k.types })
performed (create_index i) k =
    some (record k { schema = record k.schema { indexes = i ∷ k.schema.indexes } })
performed (drop_index name table) k = without_index name table k.schema.indexes k
performed (drop_table name) k = without_table name k.schema.tables k

abbrev stack : Database Kept
stack = record { run = performed }

abbrev schema_of : Kept → Schema
schema_of k = k.schema

or_kept : Kept → Option Kept → Kept
or_kept k none = k
or_kept k (some t) = t

stack-Undoes : Undoes stack schema_of
unfolding or_kept
stack-Undoes = record {
  table = λ t s s' x e same.
      let shows : x.schema ≡ record s.schema { tables = t ∷ s.schema.tables } =
        same ∙ ap (λ o. (or_kept s o).schema) (sym e) in
      (record x { schema = s.schema }, rw (shows, str_eq_refl t.name) refl, refl);
  index = λ i s s' x e same.
      let shows : x.schema ≡ record s.schema { indexes = i ∷ s.schema.indexes } =
        same ∙ ap (λ o. (or_kept s o).schema) (sym e) in
      (
        record x { schema = s.schema },
        rw (shows, str_eq_refl i.name, str_eq_refl i.table) refl,
        refl,
      );
}

abbrev after_all : List Op → Kept → Kept
after_all [] k = k
after_all (op ∷ ops) k = after_all ops (or_kept k (performed op k))

abbrev fresh : Kept
fresh = record { schema = record { tables = []; indexes = [] }; types = [] }

upgrade-downgrade_example :
    (y : Kept) × (migrate stack downgrade (after_all upgrade fresh) ≡ some y)
    × (y.schema ≡ fresh.schema)
unfolding migrate upgrade or_kept
upgrade-downgrade_example =
    upgrade-downgrade stack schema_of stack-Undoes fresh (after_all upgrade fresh) refl
