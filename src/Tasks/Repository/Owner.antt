-- ===== src/Tasks/Repository/Owner.antt =====
-- Whose tasks a page of list_tasks shows.
use agentis_backend.Prelude.{
  ℕ, zero, suc, ◌+◌, ◌≤◌, ◌≡◌, refl, String, Bool, true, false, ◌&&◌, Option, none, some, List, [],
  ◌∷◌, arith, All, length, length-take, select, take, ltb, is_none, Bool-cases, inl, inr, ==_iff,
}
use agentis_backend.PyText.{is_empty}
use agentis_backend.Http.Rules.{Post}
use agentis_backend.Tasks.Model.{Task}
use agentis_backend.Tasks.Repository.{
  Filters, admits, precedes, newest_first, list_tasks, list_after, cut_page,
}
use agentis_backend.Tasks.Cursor.{CursorText, decode_cursor}
use agentis_backend.Tasks.Repository.Pages.Order.{newest_first-All}

-- The user's own tasks that are not deleted.
abbrev pub IsOwn : ℕ → Task → Type 0
IsOwn u t = (t.user_id ≡ u) × (is_none t.deleted_at ≡ true)

abbrev pub IsOwnPage : ℕ → ℕ → List Task × Option String → Type 0
IsOwnPage u limit page = All (IsOwn u) page.0 × (length page.0 ≤ limit)

both_left : (a b : Bool) → (a && b) ≡ true → a ≡ true
both_left true b h = refl
both_left false b h = h

admits-IsOwn :
    (matches : String → String → Bool) (f : Filters) (u : ℕ) (t : Task)
    → f.owner ≡ some u
    → f.include_deleted ≡ false
    → admits matches f t ≡ true
    → IsOwn u t
unfolding admits
admits-IsOwn matches f u t owner deleted h = ground (arith, h, owner, deleted, ==_iff t.user_id u)

select-IsOwn :
    (u : ℕ) (p : Task → Bool)
    → ((t : Task) → p t ≡ true → IsOwn u t)
    → (ts : List Task) → All (IsOwn u) (select p ts)
unfolding select
select-IsOwn u p h [] = tt
select-IsOwn u p h (t ∷ ts) = elim (Bool-cases (p t)) [
  | inl e ↦ rw e (h t e, select-IsOwn u p h ts)
  | inr e ↦ rw e (select-IsOwn u p h ts)
]

All-take : (P : Task → Type 0) (n : ℕ) (ts : List Task) → All P ts → All P (take n ts)
All-take P zero ts h = tt
All-take P (suc n) [] h = tt
All-take P (suc n) (t ∷ ts) (p, h) = (p, All-take P n ts h)

module _ (lib : CursorText) (u limit : ℕ) where
  cut_page-full :
      (rows taken : List Task)
      → take limit rows ≡ taken
      → ltb limit (length rows) ≡ true
      → All (IsOwn u) taken
      → length taken ≤ limit
      → Post (IsOwnPage u limit) (cut_page lib limit rows)
  unfolding cut_page
  cut_page-full rows [] e more h n = rw (more, e) tt
  cut_page-full rows (t ∷ taken) e more h n = rw (more, e) (h, n)

  -- A cut page has no more rows than its limit.
  cut_page-IsOwnPage :
      (rows : List Task) → All (IsOwn u) rows → Post (IsOwnPage u limit) (cut_page lib limit rows)
  unfolding cut_page
  cut_page-IsOwnPage rows h = elim (Bool-cases (ltb limit (length rows))) [
    | inl more ↦
        cut_page-full rows (take limit rows) refl more (All-take (IsOwn u) limit rows h)
          (omega (arith, length-take limit rows))
    | inr all ↦ rw all (h, ground (arith, all))
  ]

  selected-IsOwnPage :
      (p : Task → Bool)
      → ((t : Task) → p t ≡ true → IsOwn u t)
      → (tasks : List Task)
      → Post
          (IsOwnPage u limit)
          (cut_page lib limit (take (limit + 1) (newest_first (select p tasks))))
  selected-IsOwnPage p h tasks =
      cut_page-IsOwnPage (take (limit + 1) (newest_first (select p tasks))) (
        All-take (IsOwn u) (limit + 1) (newest_first (select p tasks))
          (newest_first-All (IsOwn u) (select p tasks) (select-IsOwn u p h tasks)))

  module _ (matches : String → String → Bool) (f : Filters) (owner : f.owner ≡ some u)
      (deleted : f.include_deleted ≡ false) where
    list_after-IsOwnPage :
        (tasks : List Task) (c : Option (ℕ × ℕ))
        → Post (IsOwnPage u limit) (list_after lib matches f limit tasks c)
    unfolding list_after
    list_after-IsOwnPage tasks none = tt
    list_after-IsOwnPage tasks (some c) =
        selected-IsOwnPage (λ t. admits matches f t && precedes t c)
          (λ t h. admits-IsOwn matches f u t owner deleted (both_left _ _ h)) tasks

    -- Whatever the cursor, the limit and the other filters, a page of list_tasks for an owner, without
    -- deleted tasks asked for, has tasks of the owner only, none of them deleted, and no more than the
    -- limit.
    pub list_tasks-IsOwnPage :
        (tasks : List Task) (cursor : Option String)
        → Post (IsOwnPage u limit) (list_tasks lib matches f cursor limit tasks)
    unfolding list_tasks
    list_tasks-IsOwnPage tasks none =
        selected-IsOwnPage (admits matches f) (λ t. admits-IsOwn matches f u t owner deleted) tasks
    list_tasks-IsOwnPage tasks (some cursor) = elim (Bool-cases (is_empty cursor)) [
      | inl e ↦ rw e (
          selected-IsOwnPage (admits matches f) (λ t. admits-IsOwn matches f u t owner deleted)
            tasks)
      | inr e ↦ rw e (list_after-IsOwnPage tasks (decode_cursor lib cursor))
    ]
