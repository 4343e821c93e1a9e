-- ===== src/Tasks/Repository/Pages.antt =====
-- Following the cursors of list_tasks, page after page, lists every admitted task once, newest first.
pub mod Order
use agentis_backend.Prelude.{
  ℕ, zero, suc, ◌+◌, ◌-◌, ◌≤◌, ◌<◌, String, ◌≡◌, refl, sym, ap, ◌∙◌, Bool, true, false, ◌&&◌,
  Option, none, some, List, [], ◌∷◌, ◌++◌, arith, All, All-select, length, take, drop,
  take-append-drop, length-take, length-drop, take-take-suc, take_of_length-le, select, select-All,
  select_of_All, subst, select-select, select-select_of_imp, ltb, if◌then◌else◌, lt→ltb, Bool-cases,
  inl, inr, ltb→lt,
}
use native.Mathlib.Decide.{dec_le}
use agentis_backend.PyText.{◌⧺◌, is_empty, is_empty-append}
use agentis_backend.Http.{Result, ok, err}
use agentis_backend.Tasks.Model.{Task}
use agentis_backend.Tasks.Repository.{
  Filters, admits, precedes, newest_first, last_of, cut_page, list_tasks,
}
use agentis_backend.Tasks.Cursor.{CursorText, encode_cursor, decode_cursor}
use Order.{
  key, Descends, DistinctIds, DistinctIds-select, newest_first-Descends, newest_first-select,
  Descends-select, select_after, All-last, precedes_trans, All-true, newest_first-All,
}

-- The documented behaviour of datetime, uuid and base64 that the cursor relies on, for the times and the ids below
-- bounds: those that a datetime and a UUID can have.
pub record IsFaithful (lib : CursorText) (times ids : ℕ) : Type 0 where
  pub b64 : (s : String) → lib.b64decode (lib.b64encode s) ≡ some s
  pub b64_some : (s : String) → is_empty s ≡ false → is_empty (lib.b64encode s) ≡ false
  pub iso : (t : ℕ) → t < times → lib.fromisoformat (lib.isoformat t) ≡ some t
  pub iso_some : (t : ℕ) → t < times → is_empty (lib.isoformat t) ≡ false
  pub uuid : (n : ℕ) → n < ids → lib.uuid_parse (lib.uuid_str n) ≡ some n
  pub bar :
      (t n : ℕ)
      → t < times
      → n < ids
      → lib.split_bar (lib.isoformat t ⧺ "|" ⧺ lib.uuid_str n)
        ≡ lib.isoformat t ∷ lib.uuid_str n ∷ []

module _ (lib : CursorText) (times ids : ℕ) (h : IsFaithful lib times ids) (t n : ℕ) where
  -- A cursor decodes to the key that it was made of.
  pub decode-encode : t < times → n < ids → decode_cursor lib (encode_cursor lib t n) ≡ some (t, n)
  unfolding decode_cursor encode_cursor
  decode-encode early small = rw (
    h.b64 (lib.isoformat t ⧺ "|" ⧺ lib.uuid_str n),
    h.bar t n early small,
    h.iso t early,
    h.uuid n small,
    decode_cursor,
    encode_cursor,
  )

  encode-some : t < times → is_empty (encode_cursor lib t n) ≡ false
  unfolding encode_cursor
  encode-some early = h.b64_some (lib.isoformat t ⧺ "|" ⧺ lib.uuid_str n) (
      is_empty-append _ (lib.uuid_str n)
        (is_empty-append (lib.isoformat t) "|" (h.iso_some t early)))

module _ (lib : CursorText) where
  page_short :
      (limit : ℕ) (rows : List Task)
      → length rows ≤ limit
      → cut_page lib limit (take (limit + 1) rows) ≡ ok (rows, none)
  unfolding cut_page
  page_short limit rows h = rw (take_of_length-le (limit + 1) rows (omega arith)) (ground arith)

  page_full :
      (l : ℕ) (t : Task) (rows : List Task)
      → suc l ≤ length rows
      → cut_page lib (suc l) (take (suc l + 1) (t ∷ rows))
        ≡ ok (
          t ∷ take l rows,
          some
              (encode_cursor lib (last_of t (take l rows)).created_at (last_of t (take l rows)).id),
        )
  unfolding cut_page
  page_full l t rows h =
      let e : suc l + 1 ≡ suc (suc l) = omega arith in
      rw (
        e,
        lt→ltb (suc l) (suc (length (take (suc l) rows))) (omega (arith, length-take (suc l) rows)),
        take-take-suc l rows,
      )

-- The tasks that the filters admit, newest first.
abbrev pub listing : (matches : String → String → Bool) → Filters → List Task → List Task
listing matches f tasks = newest_first (select (admits matches f) tasks)

-- What a client sees that follows the cursors for at most `pages` pages, each of up to `limit` tasks.
pub follow :
    CursorText
    → (matches : String → String → Bool) → Filters
    → (limit : ℕ) → List Task
    → (pages : ℕ) → Option String
    → List Task
follow lib matches f limit tasks zero cursor = []
follow lib matches f limit tasks (suc k) cursor =
    elim (list_tasks lib matches f cursor limit tasks) [
      | err e ↦ []
      | ok (rows, next) ↦ elim next [
        | none ↦ rows
        | some c ↦ rows ++ follow lib matches f limit tasks k (some c)
      ]
    ]

-- The time and the id of the task are below the bounds.
abbrev pub IsBelow : (times ids : ℕ) → Task → Type 0
IsBelow times ids t = (t.created_at < times) × (t.id < ids)

module _ (lib : CursorText) (times ids : ℕ) (faithful : IsFaithful lib times ids)
    (matches : String → String → Bool) (f : Filters) (l : ℕ) (tasks : List Task)
    (distinct : DistinctIds tasks) (below : All (IsBelow times ids) tasks) where
  abbrev shown_all : List Task
  shown_all = listing matches f tasks

  list_at :
      (t : Task)
      → IsBelow times ids t
      → list_tasks lib matches f (some (encode_cursor lib t.created_at t.id)) (suc l) tasks
        ≡ cut_page lib (suc l) (take (suc l + 1) (select (λ u. precedes u (key t)) shown_all))
  unfolding list_tasks
  list_at t (early, small) = rw (
    encode-some lib times ids faithful t.created_at t.id early,
    decode-encode lib times ids faithful t.created_at t.id early small,
    select-select (λ u. precedes u (key t)) (admits matches f) tasks,
    newest_first-select (λ u. precedes u (key t)) (select (admits matches f) tasks)
        (DistinctIds-select (admits matches f) tasks distinct),
  )

  shown-IsBelow : (q : Task → Bool) → All (IsBelow times ids) (select q shown_all)
  shown-IsBelow q = All-select (IsBelow times ids) q shown_all (
      newest_first-All (IsBelow times ids) (select (admits matches f) tasks)
        (All-select (IsBelow times ids) (admits matches f) tasks below))

  -- What a page shows: the rows of the listing that satisfy `q`, a test that holds of all that precedes a
  -- task of which it holds.
  follow_from :
      (k : ℕ) (cursor : Option String) (q : Task → Bool) (rows : List Task)
      → select q shown_all ≡ rows
      → ((x c : Task) → q c ≡ true → precedes x (key c) ≡ true → q x ≡ true)
      → list_tasks lib matches f cursor (suc l) tasks ≡ cut_page lib (suc l) (take (suc l + 1) rows)
      → length rows ≤ k
      → follow lib matches f (suc l) tasks k cursor ≡ rows
  unfolding follow
  follow_from zero cursor q [] shown closed page h = refl
  follow_from zero cursor q (t ∷ rows) shown closed page h = absurd (omega arith)
  follow_from (suc k) cursor q [] shown closed page h =
      rw (page, page_short lib (suc l) [] (omega arith), follow)
  follow_from (suc k) cursor q (t ∷ rows) shown closed page h =
      elim (dec_le (suc l) (length rows)) [
        | no short ↦ rw (page, page_short lib (suc l) (t ∷ rows) (omega arith), follow)
        | yes full ↦
            let last = last_of t (take l rows) in
            let cut : t ∷ take l rows ++ drop l rows ≡ t ∷ rows =
              ap (◌∷◌ t) (take-append-drop l rows) in
            let ordered : Descends (t ∷ take l rows ++ drop l rows) =
              subst Descends (shown ∙ sym cut) (
                Descends-select q shown_all (
                  newest_first-Descends (select (admits matches f) tasks)
                    (DistinctIds-select (admits matches f) tasks distinct))) in
            let holds : q last ≡ true =
              All-last (λ x. q x ≡ true) t (take l rows) (drop l rows)
                (subst (All (λ x. q x ≡ true)) (shown ∙ sym cut) (select-All q shown_all)) in
            let storable : IsBelow times ids last =
              All-last (IsBelow times ids) t (take l rows) (drop l rows)
                (subst (All (IsBelow times ids)) (shown ∙ sym cut) (shown-IsBelow q)) in
            let rest : select (λ u. precedes u (key last)) shown_all ≡ drop l rows =
              sym (
                select-select_of_imp (λ u. precedes u (key last)) q
                  (λ x before. closed x last holds before) shown_all)
              ∙ ap (select (λ u. precedes u (key last))) (shown ∙ sym cut)
              ∙ select_after t (take l rows) (drop l rows) ordered in
            rw (page, page_full lib l t rows full, follow)
              (ap (λ more. t ∷ take l rows ++ more)
                  (follow_from k (some (encode_cursor lib last.created_at last.id))
                    (λ u. precedes u (key last)) (drop l rows) rest
                    (λ x c before earlier. precedes_trans x c (key last) earlier before)
                    (rw (list_at last storable, rest)) (omega (arith, length-drop l rows)))
                ∙ cut)
      ]

  -- If the tasks have distinct ids, and times and ids whose texts are read back, and there are pages enough, following the cursors lists exactly the tasks
  -- that the filters admit, each once, in the order of the listing.
  pub follow_complete :
      (pages : ℕ)
      → length (listing matches f tasks) ≤ pages
      → follow lib matches f (suc l) tasks pages none ≡ listing matches f tasks
  follow_complete pages h =
      follow_from pages none (λ t. true) shown_all (select_of_All _ shown_all (All-true shown_all))
        (λ x c e b. refl) (unfold list_tasks in refl) h
