-- ===== src/Models/Migrated.antt =====
-- The tables that the first migration creates are those that the models declare.
use agentis_backend.Prelude.{
  Option, none, ◌⊎◌, inl, inr, true, false, ◌≡◌, refl, ◌∙◌, sym, ap, subst, some, List, [], ◌∷◌,
  ◌++◌, All, arith,
}
use agentis_backend.Migrations.Ddl.{
  Op, Table, Index, create_table, create_index, drop_index, drop_table, Database, migrate,
  in_transaction, do_run_migrations, then_run-eq_some,
}
use agentis_backend.Migrations.InitialSchema.{upgrade}
use agentis_backend.Migrations.InitialSchema.Inverse.{IsCreation}
use agentis_backend.Auth.Model.{role_value}
use agentis_backend.Models.{metadata}
use agentis_backend.Models.Schema.{Schema, Conforms, conforms, found}

abbrev pub with_table : Table → Schema → Schema
with_table t s = record s { tables = s.tables ++ t ∷ [] }

abbrev pub with_index : Index → Schema → Schema
with_index i s = record s { indexes = s.indexes ++ i ∷ [] }

-- What an inspection of the database, alembic's own table of versions left out, shows after an operation that
-- succeeds: what was there, and what was created.
pub record Shows {S : Type 0} (db : Database S) (inspect : S → Schema) : Type 0 where
  pub table :
      (t : Table) (s s' : S)
      → db.run (create_table t) s ≡ some s'
      → inspect s' ≡ with_table t (inspect s)
  pub index :
      (i : Index) (s s' : S)
      → db.run (create_index i) s ≡ some s'
      → inspect s' ≡ with_index i (inspect s)

abbrev pub created : Op → Schema → Schema
created (create_table t) s = with_table t s
created (create_index i) s = with_index i s
created op s = s

abbrev pub all_created : List Op → Schema → Schema
all_created [] s = s
all_created (op ∷ ops) s = all_created ops (created op s)

abbrev pub empty : Schema
empty = record { tables = []; indexes = [] }

-- What the first migration leaves on an empty database conforms to the models.
upgraded : Conforms metadata (all_created upgrade empty)
unfolding metadata upgrade conforms role_value
upgraded = found (conforms metadata (all_created upgrade empty)) refl

module _ {S : Type 0} (db : Database S) (inspect : S → Schema) (h : Shows db inspect) where
  shown :
      (op : Op) (s s' : S)
      → IsCreation op
      → db.run op s ≡ some s'
      → inspect s' ≡ created op (inspect s)
  shown (create_table t) s s' c e = h.table t s s' e
  shown (create_index i) s s' c e = h.index i s s' e
  shown (drop_index name table) s s' c e = absurd c
  shown (drop_table name) s s' c e = absurd c

  migrate_shown :
      (ops : List Op) (s s' : S)
      → All IsCreation ops
      → migrate db ops s ≡ some s'
      → inspect s' ≡ all_created ops (inspect s)
  unfolding migrate
  migrate_shown [] s s' c e = cc
  migrate_shown (op ∷ ops) s s' (c, cs) e =
      let (t, first, rest) = then_run-eq_some (migrate db ops) (db.run op s) s' e in
      migrate_shown ops t s' cs rest ∙ ap (all_created ops) (shown op s t c first)

  after_transaction :
      (s : S) (r : Option S)
      → inspect s ≡ empty
      → migrate db upgrade s ≡ r
      → let (done, s') = in_transaction s r in
        ((done ≡ false) × (s' ≡ s)) ⊎ ((done ≡ true) × Conforms metadata (inspect s'))
  unfolding upgrade
  after_transaction s none e m = inl (refl, refl)
  after_transaction s (some s') e m = inr (
    refl,
    subst (Conforms metadata)
        (sym (migrate_shown upgrade s s' (omega arith) m ∙ ap (all_created upgrade) e)) upgraded,
  )

  -- Running the first migration on a database that shows no table either fails and leaves the database as it
  -- was, or leaves a table for every model and no other, each with the columns and constraints that its model
  -- declares and no others, and the indexes that the models declare and no others.
  pub upgrade-Conforms :
      (s : S)
      → inspect s ≡ empty
      → let (done, s') = do_run_migrations db upgrade s in
        ((done ≡ false) × (s' ≡ s)) ⊎ ((done ≡ true) × Conforms metadata (inspect s'))
  unfolding do_run_migrations
  upgrade-Conforms s e = after_transaction s (migrate db upgrade s) e refl
