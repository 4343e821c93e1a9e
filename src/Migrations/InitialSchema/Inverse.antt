-- ===== src/Migrations/InitialSchema/Inverse.antt =====
-- The first migration's way down undoes its way up, as far as the tables and indexes go.
use agentis_backend.Prelude.{
  ◌≡◌, refl, sym, arith, ◌∙◌, ap, Option, none, some, List, [], ◌∷◌, ◌++◌, All,
}
use agentis_backend.Migrations.Ddl.{
  Op, Table, Index, create_table, create_index, drop_index, drop_table, Database, migrate, then_run,
  then_run-eq_some,
}
use agentis_backend.Migrations.InitialSchema.{upgrade, downgrade}

-- The operation that undoes another, and whether that is known.
abbrev pub undo : Op → Op
undo (create_table t) = drop_table t.name
undo (create_index i) = drop_index i.name i.table
undo op = op

abbrev pub IsCreation : Op → Type 0
IsCreation (create_table t) = Unit
IsCreation (create_index i) = Unit
IsCreation _ = ⊥

-- `view` is what is looked at of a database: its tables and indexes, with what else stands on them, and not what
-- a dropped table leaves behind, as PostgreSQL leaves its enum types. Dropping what was created just before
-- brings back the view before, in any database with the same view.
pub record Undoes {S V : Type 0} (db : Database S) (view : S → V) : Type 0 where
  pub table :
      (t : Table) (s s' x : S)
      → db.run (create_table t) s ≡ some s'
      → view x ≡ view s'
      → (y : S) × (db.run (drop_table t.name) x ≡ some y) × (view y ≡ view s)
  pub index :
      (i : Index) (s s' x : S)
      → db.run (create_index i) s ≡ some s'
      → view x ≡ view s'
      → (y : S) × (db.run (drop_index i.name i.table) x ≡ some y) × (view y ≡ view s)

abbrev mirror : List Op → List Op
mirror [] = []
mirror (op ∷ ops) = mirror ops ++ undo op ∷ []

then_run-then_run :
    {S : Type 0}
    → (f g h : S → Option S) → ((t : S) → f t ≡ then_run g (h t))
    → (r : Option S) → then_run f r ≡ then_run g (then_run h r)
then_run-then_run f g h e none = refl
then_run-then_run f g h e (some t) = e t

module _ {S V : Type 0} (db : Database S) (view : S → V) (h : Undoes db view) where
  abbrev shown_by : S → Option S → V
  shown_by s none = view s
  shown_by s (some t) = view t

  -- The operations succeed and leave the view of `s`.
  abbrev pub Restores : List Op → S → S → Type 0
  Restores ops x s = (y : S) × (migrate db ops x ≡ some y) × (view y ≡ view s)

  undone :
      (op : Op) (s s' x : S)
      → IsCreation op
      → db.run op s ≡ some s'
      → view x ≡ view s'
      → (y : S) × (db.run (undo op) x ≡ some y) × (view y ≡ view s)
  undone (create_table t) s s' x c e same = h.table t s s' x e same
  undone (create_index i) s s' x c e same = h.index i s s' x e same
  undone (drop_index name table) s s' x c e same = absurd c
  undone (drop_table name) s s' x c e same = absurd c

  migrate-append :
      (xs ys : List Op) (s : S)
      → migrate db (xs ++ ys) s ≡ then_run (migrate db ys) (migrate db xs s)
  unfolding migrate
  migrate-append [] ys s = refl
  migrate-append (x ∷ xs) ys s =
      then_run-then_run (migrate db (xs ++ ys)) (migrate db ys) (migrate db xs)
        (migrate-append xs ys) (db.run x s)

  -- Undoing creations in the opposite order.
  migrate-mirror :
      (ops : List Op) (s s' x : S)
      → All IsCreation ops
      → migrate db ops s ≡ some s'
      → view x ≡ view s'
      → Restores (mirror ops) x s
  unfolding migrate
  migrate-mirror [] s s' x c e same = (x, refl, same ∙ ap (shown_by s) (sym e))
  migrate-mirror (op ∷ ops) s s' x (c, cs) e same =
      let (t, first, rest) = then_run-eq_some (migrate db ops) (db.run op s) s' e in
      let (y, down, shows) = migrate-mirror ops t s' x cs rest same in
      let (z, last, left) = undone op s t y c first shows in
      (
        z,
        migrate-append (mirror ops) (undo op ∷ []) x
            ∙ ap (then_run (migrate db (undo op ∷ []))) down
            ∙ ap (then_run (migrate db [])) last,
        left,
      )

  -- Where the way up succeeds, the way down succeeds after it and leaves the tables and indexes, or what else is
  -- viewed, as they were, if dropping what was created does so.
  pub upgrade-downgrade :
      (s s' : S)
      → migrate db upgrade s ≡ some s'
      → (y : S) × (migrate db downgrade s' ≡ some y) × (view y ≡ view s)
  unfolding upgrade downgrade
  upgrade-downgrade s s' e = migrate-mirror upgrade s s' s' (omega arith) e refl
