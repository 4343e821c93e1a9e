-- ===== src/Orchestrator/Events/Numbering.antt =====
-- The numbers of the steps that EventEmitter.emit gives, and what replay makes of them.
use agentis_backend.Prelude.{
  ℕ, zero, suc, ◌+◌, ◌<◌, ◌≡◌, refl, ap, ◌∙◌, false, ◌&&◌, List, [], ◌∷◌, ◌++◌, arith, length, drop,
  select, any, map, subst, select-append, select_of_true, select_of_false, select-select, ltb,
  lt→ltb, ◌==◌, ==_iff, if◌then◌else◌, Bool-cases, inl, inr,
}
use agentis_backend.Http.{ok}
use agentis_backend.Orchestrator.Events.{
  TaskStep, EventStore, Emission, of_task, step_of, event_of, add_step, max_step, emit, order_steps,
  insert_step, replayed, replay,
}

-- The numbers of the steps are k, k + 1, and so on.
abbrev pub Numbered : ℕ → List TaskStep → Type 0
Numbered k [] = Unit
Numbered k (s ∷ rest) = (s.step_number ≡ k) × Numbered (suc k) rest

-- The steps of a task are numbered from 1 on, without a gap, in the order in which they were emitted.
abbrev pub IsNumbered : ℕ → EventStore → Type 0
IsNumbered task store = Numbered 1 (select (of_task task) store.steps)

-- The largest of n numbers that follow k.
abbrev peak : (k n : ℕ) → ℕ
peak k zero = 0
peak k (suc n) = k + suc n

peak_cons :
    (k n m number : ℕ)
    → number ≡ suc k
    → m ≡ peak (suc k) n
    → (if ltb m number then number else m) ≡ peak k (suc n)
peak_cons k zero m number e h = ground arith
peak_cons k (suc n) m number e h = ground arith

peak_zero : (n : ℕ) → peak 0 n ≡ n
peak_zero zero = refl
peak_zero (suc n) = omega arith

max_step-Numbered :
    (task k : ℕ) (xs : List TaskStep)
    → Numbered (suc k) (select (of_task task) xs)
    → max_step task xs ≡ peak k (length (select (of_task task) xs))
unfolding max_step select
max_step-Numbered task k [] h = refl
max_step-Numbered task k (s ∷ rest) h = elim (Bool-cases (of_task task s)) [
  | inl e ↦
      let (first, others) = subst (Numbered (suc k)) (select_of_true (of_task task) s rest e) h in
      rw e (
        peak_cons k (length (select (of_task task) rest)) (max_step task rest) s.step_number first
          (max_step-Numbered task (suc k) rest others))
  | inr e ↦ rw e (
      max_step-Numbered task k rest
        (subst (Numbered (suc k)) (select_of_false (of_task task) s rest e) h))
]

fresh :
    (task n : ℕ) (xs : List TaskStep)
    → max_step task xs < n
    → any (λ s. of_task task s && s.step_number == n) xs ≡ false
unfolding max_step
fresh task n [] h = refl
fresh task n (s ∷ rest) h = ground (arith, fresh task n rest)

pub Numbered-append :
    (k : ℕ) (xs : List TaskStep) (s : TaskStep)
    → Numbered k xs
    → s.step_number ≡ k + length xs
    → Numbered k (xs ++ s ∷ [])
Numbered-append k [] s h e = (omega arith, tt)
Numbered-append k (x ∷ xs) s (h, t) e = (h, Numbered-append (suc k) xs s t (omega arith))

-- The number of the next step is one more than the number of the task's steps.
pub next_number :
    (task : ℕ) (store : EventStore)
    → IsNumbered task store
    → max_step task store.steps ≡ length (select (of_task task) store.steps)
next_number task store h =
    max_step-Numbered task 0 store.steps h ∙ peak_zero (length (select (of_task task) store.steps))

-- What emit does: it does not fail, appends the step, and publishes it.
pub emit_eq :
    (task : ℕ) (e : Emission) (store : EventStore)
    → emit task e store ≡ (
      ok (max_step task store.steps + 1),
      record {
        steps = store.steps ++ step_of task (max_step task store.steps + 1) e ∷ [];
        published = store.published ++ (task, event_of (max_step task store.steps + 1) e) ∷ [];
      },
    )
unfolding emit
emit_eq task e store = rw (fresh task (max_step task store.steps + 1) store.steps (omega arith))

pub select_last :
    (u task number : ℕ) (e : Emission) (xs : List TaskStep)
    → select (of_task u) (xs ++ step_of task number e ∷ [])
      ≡ select (of_task u) xs ++ (if task == u then step_of task number e ∷ [] else [])
unfolding select
select_last u task number e xs = select-append (of_task u) xs (step_of task number e ∷ [])

pub append_nil : (xs : List TaskStep) → xs ++ [] ≡ xs
append_nil [] = refl
append_nil (x ∷ xs) = ap (◌∷◌ x) (append_nil xs)

-- A step that comes after the others of its task keeps the numbering of every task's steps.
pub add_step-IsNumbered :
    (u task n : ℕ) (e : Emission) (store : EventStore)
    → IsNumbered u store
    → (task ≡ u → n ≡ 1 + length (select (of_task u) store.steps))
    → IsNumbered u (add_step task n e store)
add_step-IsNumbered u task n e store h follows =
    rw (select_last u task n e store.steps) (elim (Bool-cases (task == u)) [
      | inl same ↦ rw same (
          Numbered-append 1 (select (of_task u) store.steps) (step_of task n e) h
            (follows ((==_iff task u).0 same)))
      | inr other ↦ rw (other, append_nil (select (of_task u) store.steps)) h
    ])

-- Every emission, of the same task or of another, keeps the numbering of a task's steps.
pub emit-IsNumbered :
    (u task : ℕ) (e : Emission) (store : EventStore)
    → IsNumbered u store
    → IsNumbered u (emit task e store).1
emit-IsNumbered u task e store h = rw (emit_eq task e store) (
    add_step-IsNumbered u task (max_step task store.steps + 1) e store h
      (λ same. omega (arith, next_number u store h, ap (λ t. max_step t store.steps) same)))

-- Numbered steps are in order.
order_steps-Numbered : (k : ℕ) (xs : List TaskStep) → Numbered k xs → order_steps xs ≡ xs
unfolding order_steps
order_steps-Numbered k [] h = refl
order_steps-Numbered k (s ∷ []) h = unfold insert_step in refl
order_steps-Numbered k (s ∷ t ∷ rest) (e, (e', h)) =
    rw (order_steps-Numbered (suc k) (t ∷ rest) (e', h)) (unfold insert_step in ground arith)

all_after :
    (m k : ℕ) (xs : List TaskStep)
    → m < k
    → Numbered k xs
    → select (λ s. ltb m s.step_number) xs ≡ xs
unfolding select
all_after m k [] h n = refl
all_after m k (s ∷ rest) h (e, n) =
    rw (lt→ltb m s.step_number (omega arith), all_after m (suc k) rest (omega arith) n)

select_after :
    (n k m : ℕ) (xs : List TaskStep)
    → m ≡ n + k
    → Numbered (suc k) xs
    → select (λ s. ltb m s.step_number) xs ≡ drop n xs
select_after zero k m xs e h = all_after m (suc k) xs (omega arith) h
select_after (suc n) k m [] e h = unfold select in refl
select_after (suc n) k m (s ∷ rest) e (first, h) =
    select_of_false (λ s. ltb m s.step_number) s rest (ground arith)
    ∙ select_after n (suc k) m rest (omega arith) h

pub Numbered-drop :
    (n k m : ℕ) (xs : List TaskStep) → m ≡ n + k → Numbered k xs → Numbered m (drop n xs)
Numbered-drop zero k m xs e h = subst (λ a. Numbered a xs) {x = k} {y = m} (omega arith) h
Numbered-drop (suc n) k m [] e h = tt
Numbered-drop (suc n) k m (x ∷ xs) e (first, h) = Numbered-drop n (suc k) m xs (omega arith) h

pub map-drop :
    {A B : Type 0} → (f : A → B) (n : ℕ) (xs : List A) → map f (drop n xs) ≡ drop n (map f xs)
map-drop f zero xs = refl
map-drop f (suc n) [] = refl
map-drop f (suc n) (x ∷ xs) = map-drop f n xs

-- Replay after the number `after` gives exactly the events of the task's steps but the first `after`, in the
-- order in which they were emitted, if these are numbered without a gap.
pub replay-drop :
    (task after : ℕ) (store : EventStore)
    → IsNumbered task store
    → replay task after store ≡ drop after (map replayed (select (of_task task) store.steps))
unfolding replay
replay-drop task after store h =
    let mine = select (of_task task) store.steps in
    rw (
      select-select (λ s. ltb after s.step_number) (of_task task) store.steps,
      select_after after 0 after mine (omega arith) h,
      order_steps-Numbered (after + 1) (drop after mine)
          (Numbered-drop after 1 (after + 1) mine (omega arith) h),
      map-drop replayed after mine,
    )
