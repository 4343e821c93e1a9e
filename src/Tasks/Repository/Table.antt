-- ===== src/Tasks/Repository/Table.antt =====
-- The table of tasks as a database has it, without an order of its rows.
use mathlib.Core.Quot
use mathlib.Core.Quot.{Quot, Quot-set}
use text.Mathlib.TextEquality.{IsScalar-prop}
use agentis_backend.Prelude.{
  ℕ, ◌+◌, ◌≡◌, ◌≢◌, refl, ap, String, Bool, Option, none, some, List, [], ◌∷◌, arith, select, take,
  Bool-cases, inl, inr, ◌&&◌,
}
use agentis_backend.PyText.{is_empty}
use agentis_backend.Http.{Result}
use agentis_backend.Tasks.Model.{Task}
use agentis_backend.Tasks.Repository.{
  Filters, admits, precedes, insert_newest, newest_first, list_tasks, list_after, cut_page,
}
use agentis_backend.Tasks.Cursor.{CursorText, decode_cursor}

-- The second list has two rows of different ids, next to each other in the first, the other way round.
pub data Swap : List Task → List Task → Type 0 where
  here : {t u : Task} {xs : List Task} → t.id ≢ u.id → Swap (t ∷ u ∷ xs) (u ∷ t ∷ xs)
  there : {t : Task} {xs ys : List Task} → Swap xs ys → Swap (t ∷ xs) (t ∷ ys)

-- Lists of rows whose order does not matter.
abbrev pub Table : Type 0
Table = Quot Swap

answer_set : IsSet (Result (List Task × Option String))
answer_set = hlevel (IsScalar-prop)

insert_comm :
    (t u : Task) (xs : List Task)
    → t.id ≢ u.id
    → insert_newest t (insert_newest u xs) ≡ insert_newest u (insert_newest t xs)
unfolding insert_newest
insert_comm t u [] ne = ground arith
insert_comm t u (x ∷ xs) ne = ground (arith, insert_comm t u xs)

-- The rows of a query do not depend on the order of the table.
rows-Swap :
    (p : Task → Bool) {xs ys : List Task}
    → Swap xs ys
    → newest_first (select p xs) ≡ newest_first (select p ys)
unfolding newest_first select
rows-Swap p (here {t} {u} {xs} ne) = elim (Bool-cases (p t)) [
  | inl e ↦ elim (Bool-cases (p u)) [
    | inl e' ↦ rw (e, e') (insert_comm t u (newest_first (select p xs)) ne)
    | inr e' ↦ rw (e, e') refl
  ]
  | inr e ↦ elim (Bool-cases (p u)) [ inl e' ↦ rw (e, e') refl | inr e' ↦ rw (e, e') refl ]
]
rows-Swap p (there {t} {xs} {ys} s) = elim (Bool-cases (p t)) [
  | inl e ↦ rw e (ap (insert_newest t) (rows-Swap p s))
  | inr e ↦ rw e (rows-Swap p s)
]

module _ (lib : CursorText) (matches : String → String → Bool) (f : Filters) (limit : ℕ) where
  list_after-Swap :
      (c : Option (ℕ × ℕ)) {xs ys : List Task}
      → Swap xs ys
      → list_after lib matches f limit xs c ≡ list_after lib matches f limit ys c
  unfolding list_after
  list_after-Swap none s = refl
  list_after-Swap (some c) s =
      ap (λ rows. cut_page lib limit (take (limit + 1) rows))
        (rows-Swap (λ t. admits matches f t && precedes t c) s)

  list_tasks-Swap :
      (cursor : Option String) {xs ys : List Task}
      → Swap xs ys
      → list_tasks lib matches f cursor limit xs ≡ list_tasks lib matches f cursor limit ys
  unfolding list_tasks
  list_tasks-Swap none s =
      ap (λ rows. cut_page lib limit (take (limit + 1) rows)) (rows-Swap (admits matches f) s)
  list_tasks-Swap (some cursor) s = elim (Bool-cases (is_empty cursor)) [
    | inl e ↦
        rw e
          (ap (λ rows. cut_page lib limit (take (limit + 1) rows)) (rows-Swap (admits matches f) s))
    | inr e ↦ rw e (list_after-Swap (decode_cursor lib cursor) s)
  ]

  -- list_tasks of a table.
  list_table : Option String → Table → Result (List Task × Option String)
  list_table cursor =
      Quot.lift answer_set (list_tasks lib matches f cursor limit)
        (λ xs ys s. list_tasks-Swap cursor s)

  -- Lists that are the same table, whatever the order of their rows, have the same pages: list_tasks answers
  -- alike for every cursor, filter and limit.
  pub list_tasks-Table :
      (cursor : Option String) (xs ys : List Task)
      → ◌≡◌ {A = Table} (Quot.mk xs) (Quot.mk ys)
      → list_tasks lib matches f cursor limit xs ≡ list_tasks lib matches f cursor limit ys
  unfolding list_table
  list_tasks-Table cursor xs ys same = ap (list_table cursor) same
