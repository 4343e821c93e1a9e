-- ===== src/Models/Schema.antt =====
-- When a database has the tables and indexes that models declare.
use agentis_backend.Prelude.{
  ◌≡◌, refl, ◌⊎◌, inl, inr, ◌↔◌, Bool, true, false, Option, none, some, is_some, List, [], ◌∷◌,
  ◌++◌, All, Some, map, String, str_eq, eq_iff,
}
use native.Mathlib.Decide.{ℕ_discrete}
use agentis_backend.Migrations.Ddl.{ColumnType, Column, Constraint, Table, Index, Declared}

pub false_ne_true : ¬ (false ≡ true)
false_ne_true = cc

-- The tables and the indexes of a database.
pub record Schema : Type 0 where
  pub tables : List Table
  pub indexes : List Index

abbrev pub with_table : Table → Schema → Schema
with_table t s = record s { tables = s.tables ++ t ∷ [] }

abbrev pub with_index : Index → Schema → Schema
with_index i s = record s { indexes = s.indexes ++ i ∷ [] }

-- The same elements, in whatever order.
abbrev pub SameMembers : {A : Type 0} → (A → A → Type 0) → List A → List A → Type 0
SameMembers R xs ys = All (λ x. Some (λ y. R x y) ys) xs × All (λ y. Some (λ x. R x y) xs) ys

-- Tables of one name with the same columns and constraints.
abbrev pub SameTable : Table → Table → Type 0
SameTable t u =
    (t.name ≡ u.name)
    × (SameMembers ◌≡◌ t.columns u.columns × SameMembers ◌≡◌ t.constraints u.constraints)

abbrev pub indexes_of : List Declared → List Index
indexes_of [] = []
indexes_of (d ∷ ds) = d.indexes ++ indexes_of ds

-- The schema has a table for each model and no other, and their indexes and no other.
abbrev pub Conforms : List Declared → Schema → Type 0
Conforms ds s =
    SameMembers SameTable (map (λ d. d.table) ds) s.tables
    × SameMembers ◌≡◌ (indexes_of ds) s.indexes

dec_of : {P : Type 0} (b : Bool) → (b ≡ true) ↔ P → Dec P
dec_of true h = yes (h.0 refl)
dec_of false h = no (λ p. absurd (false_ne_true (h.1 p)))

String-discrete : Discrete String
unfolding dec_of
String-discrete a b = dec_of (str_eq a b) (eq_iff a b)

ColumnType-discrete : Discrete ColumnType
unfolding String-discrete ℕ_discrete
ColumnType-discrete = hlevel (String-discrete, ℕ_discrete)

Column-discrete : Discrete Column
unfolding ColumnType-discrete
Column-discrete = hlevel (String-discrete, ColumnType-discrete)

Constraint-discrete : Discrete Constraint
unfolding String-discrete
Constraint-discrete = hlevel (String-discrete)

Index-discrete : Discrete Index
unfolding String-discrete
Index-discrete = hlevel (String-discrete)

-- A proof that is found by trying every element; `none` says nothing.
abbrev trial {ℓ} : {P : Type ℓ} → Dec P → Option P
trial (yes p) = some p
trial (no _) = none

abbrev both : {P Q : Type 0} → Option P → Option Q → Option (P × Q)
both (some p) (some q) = some (p, q)
both _ _ = none

abbrev first_of : {P Q : Type 0} → Option P → Option Q → Option (P ⊎ Q)
first_of (some p) _ = some (inl p)
first_of none (some q) = some (inr q)
first_of none none = none

module _ {A : Type 0} {P : A → Type 0} (try : (x : A) → Option (P x)) where
  some_of : (xs : List A) → Option (Some P xs)
  some_of [] = none
  some_of (x ∷ xs) = first_of (try x) (some_of xs)

  all_of : (xs : List A) → Option (All P xs)
  all_of [] = some tt
  all_of (x ∷ xs) = both (try x) (all_of xs)

same_members :
    {A : Type 0} {R : A → A → Type 0}
    → ((x y : A) → Option (R x y))
    → (xs ys : List A) → Option (SameMembers R xs ys)
unfolding some_of all_of
same_members try xs ys =
    both (all_of (λ x. some_of (λ y. try x y) ys) xs) (all_of (λ y. some_of (λ x. try x y) xs) ys)

equal : {A : Type 0} → Discrete A → (x y : A) → Option (x ≡ y)
equal d x y = trial (d x y)

same_table : (t u : Table) → Option (SameTable t u)
unfolding same_members equal
same_table t u = both (trial (String-discrete t.name u.name)) (
    both (same_members (equal Column-discrete) t.columns u.columns)
      (same_members (equal Constraint-discrete) t.constraints u.constraints))

-- A proof that the schema conforms, if it does.
unfoldable pub conforms : (ds : List Declared) (s : Schema) → Option (Conforms ds s)
unfolding same_table same_members equal String-discrete Column-discrete Constraint-discrete
    Index-discrete dec_of
conforms ds s =
    both (same_members same_table (map (λ d. d.table) ds) s.tables)
      (same_members (equal Index-discrete) (indexes_of ds) s.indexes)

-- What was found.
pub found : {P : Type 0} (o : Option P) → is_some o ≡ true → P
found (some p) h = p
found none h = absurd (false_ne_true h)
