-- ===== src/Tasks/Repository.antt =====
-- app/repositories/task.py.
pub mod Pages
pub mod Table
pub mod Owner
use agentis_backend.Prelude.{
  ℕ, suc, ◌+◌, String, Bool, true, false, not, ◌&&◌, ◌||◌, Option, none, some, List, [], ◌∷◌, ◌++◌,
  length, take, ◌==◌, ltb, leb, str_eq, if◌then◌else◌, is_none, any, select, count, update_where,
}
use agentis_backend.PyText.{◌⧺◌, is_empty}
use agentis_backend.Http.{Result, ok, err, crash, scalar_one_or_none}
use agentis_backend.Orchestrator.State.{ℤ}
use agentis_backend.Tasks.Cursor.{CursorText, encode_cursor, decode_cursor}
use agentis_backend.Tasks.Model.{
  TaskStatus, submitted, planning, running, waiting_for_input, completed, failed, cancelled, Task,
}

-- _ACTIVE_RUNNING
abbrev pub is_active : TaskStatus → Bool
is_active submitted = true
is_active planning = true
is_active running = true
is_active waiting_for_input = true
is_active _ = false

-- The arguments of create_task, with the id and the time that the database gives.
pub record NewTask : Type 0 where
  pub id : ℕ
  pub created_at : ℕ
  pub user_id : ℕ
  pub goal : String
  pub language : String
  pub max_iterations : ℤ
  pub allowed_tools : Option (List String)
  pub organization_id : Option ℕ
  pub notify_webhook : Option String

-- create_task
unfoldable pub create_task : NewTask → List Task → Task × List Task
create_task n tasks =
    let task : Task = record {
      id = n.id;
      user_id = n.user_id;
      organization_id = n.organization_id;
      goal = n.goal;
      status = submitted;
      language = n.language;
      plan = none;
      allowed_tools = n.allowed_tools;
      max_iterations = n.max_iterations;
      result_summary = none;
      error_message = none;
      error_code = none;
      partial = false;
      notify_webhook = n.notify_webhook;
      total_tokens = 0;
      total_steps = 0;
      created_at = n.created_at;
      started_at = none;
      completed_at = none;
      deleted_at = none;
    } in
    (task, tasks ++ task ∷ [])

-- The WHERE of get_task: `owner` is none for an administrator or where no user is given.
abbrev pub visible : ℕ → (owner : Option ℕ) → Task → Bool
visible id none t = t.id == id && is_none t.deleted_at
visible id (some u) t = t.id == id && is_none t.deleted_at && t.user_id == u

abbrev pub owner_of : (user_id : Option ℕ) → (is_admin : Bool) → Option ℕ
owner_of user_id true = none
owner_of user_id false = user_id

-- get_task
unfoldable pub get_task :
    ℕ → (user_id : Option ℕ) → (is_admin : Bool) → List Task → Result (Option Task)
unfolding select
get_task id user_id is_admin tasks =
    scalar_one_or_none (select (visible id (owner_of user_id is_admin)) tasks)

-- count_running_tasks
unfoldable pub count_running_tasks : ℕ → List Task → ℕ
unfolding count
count_running_tasks user_id tasks =
    count (λ t. t.user_id == user_id && is_active t.status && is_none t.deleted_at) tasks

-- The filters of list_tasks; `matches` is PostgreSQL's to_tsvector(…) @@ plainto_tsquery(…).
pub record Filters : Type 0 where
  pub owner : Option ℕ
  pub statuses : Option (List TaskStatus)
  pub language : Option String
  pub created_after : Option ℕ
  pub created_before : Option ℕ
  pub search : Option String
  pub include_deleted : Bool

abbrev status_eq : TaskStatus → TaskStatus → Bool
status_eq submitted submitted = true
status_eq planning planning = true
status_eq running running = true
status_eq waiting_for_input waiting_for_input = true
status_eq completed completed = true
status_eq failed failed = true
status_eq cancelled cancelled = true
status_eq _ _ = false

-- A condition that is appended only if its argument is given.
abbrev given {ℓ} : {A : Type ℓ} → Option A → (A → Bool) → Bool
given none p = true
given (some a) p = p a

-- `if statuses`: an empty list adds no condition
abbrev status_in : List TaskStatus → TaskStatus → Bool
status_in [] s = true
status_in (t ∷ ts) s = any (status_eq s) (t ∷ ts)

-- `if language:` and `if search:` leave out an empty text
abbrev given_text : Option String → (String → Bool) → Bool
given_text none p = true
given_text (some s) p = if is_empty s then true else p s

unfoldable pub admits : (matches : String → String → Bool) → Filters → Task → Bool
admits matches f t =
    given f.owner (λ u. t.user_id == u)
    && (f.include_deleted || is_none t.deleted_at)
    && given f.statuses (λ l. status_in l t.status)
    && given_text f.language (str_eq t.language)
    && given f.created_after (λ a. leb a t.created_at)
    && given f.created_before (λ b. leb t.created_at b)
    && given_text f.search (matches t.goal)

-- created_at < ts or (created_at == ts and id < cursor id)
abbrev pub precedes : Task → ℕ × ℕ → Bool
precedes t (ts, id) = ltb t.created_at ts || (t.created_at == ts && ltb t.id id)

-- ORDER BY created_at DESC, id DESC
unfoldable pub insert_newest : Task → List Task → List Task
insert_newest t [] = t ∷ []
insert_newest t (u ∷ rest) =
    if precedes t (u.created_at, u.id) then u ∷ insert_newest t rest else t ∷ u ∷ rest

unfoldable pub newest_first : List Task → List Task
unfolding insert_newest
newest_first [] = []
newest_first (t ∷ rest) = insert_newest t (newest_first rest)

abbrev pub last_of : Task → List Task → Task
last_of t [] = t
last_of t (u ∷ rest) = last_of u rest

-- The rows of one page and the cursor of the next: `rows` are up to limit + 1.
unfoldable pub cut_page : CursorText → ℕ → List Task → Result (List Task × Option String)
unfolding encode_cursor
cut_page lib limit rows =
    if ltb limit (length rows)
    then elim (take limit rows) [
      | [] ↦ err (crash "IndexError")
      | t ∷ rest ↦
          let last = last_of t rest in
          ok (t ∷ rest, some (encode_cursor lib last.created_at last.id))
    ]
    else ok (rows, none)

-- The query of list_tasks after a decoded cursor.
unfoldable pub list_after :
    CursorText
    → (matches : String → String → Bool) → Filters
    → (limit : ℕ) → List Task
    → Option (ℕ × ℕ)
    → Result (List Task × Option String)
list_after lib matches f limit tasks none = err (crash "ValueError")
list_after lib matches f limit tasks (some c) =
    cut_page lib limit
      (take (limit + 1) (newest_first (select (λ t. admits matches f t && precedes t c) tasks)))

-- list_tasks
unfoldable pub list_tasks :
    CursorText
    → (matches : String → String → Bool) → Filters
    → (after_cursor : Option String) → (limit : ℕ) → List Task
    → Result (List Task × Option String)
unfolding list_after
list_tasks lib matches f none limit tasks =
    cut_page lib limit (take (limit + 1) (newest_first (select (admits matches f) tasks)))
list_tasks lib matches f (some cursor) limit tasks =
    if is_empty cursor
    then cut_page lib limit (take (limit + 1) (newest_first (select (admits matches f) tasks)))
    else list_after lib matches f limit tasks (decode_cursor lib cursor)

-- cancel_task, on the row that get_task found
unfoldable pub cancel_found : (now : ℕ) → Option Task → List Task → Bool × List Task
unfolding update_where
cancel_found now none tasks = (false, tasks)
cancel_found now (some t) tasks = elim t.status [
  | completed ↦ (false, tasks)
  | failed ↦ (false, tasks)
  | cancelled ↦ (true, tasks)
  | _ ↦ (
    true,
    update_where (λ u. u.id == t.id) (λ u. record u { status = cancelled; completed_at = some now })
        tasks,
  )
]

abbrev cancel_result : (now : ℕ) → List Task → Result (Option Task) → Result (Bool × List Task)
cancel_result now tasks (err e) = err e
cancel_result now tasks (ok found) = ok (cancel_found now found tasks)

-- cancel_task: whether it was cancelled, and the table.
unfoldable pub cancel_task :
    (now : ℕ) → ℕ → (user_id : ℕ) → (is_admin : Bool) → List Task → Result (Bool × List Task)
cancel_task now id user_id is_admin tasks =
    cancel_result now tasks (get_task id (some user_id) is_admin tasks)
