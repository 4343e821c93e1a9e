-- ===== src/Orchestrator/Events/Writers/Safety.antt =====
-- What holds whatever the interleaving of the writers.
use agentis_backend.Prelude.{
  ℕ, suc, ◌+◌, ◌≤◌, ◌<◌, ◌≡◌, refl, subst, true, false, List, [], ◌∷◌, ◌++◌, arith, length, select,
  select_of_true, select_of_false, All, All-append, ◌==◌, ==_iff, Bool-cases, inl, inr,
}
use native.Mathlib.Decide.{dec_le}
use agentis_backend.Orchestrator.Events.{
  TaskStep, EventStore, Event, Emission, of_task, step_of, max_step, is_taken, announce,
}
use agentis_backend.Orchestrator.Events.Numbering.{
  Numbered, IsNumbered, next_number, add_step-IsNumbered,
}
use agentis_backend.Orchestrator.Events.Writers.{
  Pc, idle, chosen, committed, lost, Move, choose, insert, conflict, publish, retry, System, at,
  Step, by, Reach, start, later,
}

-- Every event on a channel is that of a step in the table.
abbrev pub IsBacked : EventStore → Type 0
IsBacked store = All (λ p. is_taken p.0 p.1.id store.steps ≡ true) store.published

-- What the number that a writer holds says of the table.
abbrev IsHeld : ℕ → EventStore → Pc → Type 0
IsHeld task store idle = Unit
IsHeld task store lost = Unit
IsHeld task store (chosen n e) = (1 ≤ n) × (n ≤ max_step task store.steps + 1)
IsHeld task store (committed n e) = is_taken task n store.steps ≡ true

-- Between 1 and the number of the steps every number is taken.
taken_below :
    (task k n : ℕ) (xs : List TaskStep)
    → Numbered k (select (of_task task) xs)
    → k ≤ n
    → n < k + length (select (of_task task) xs)
    → is_taken task n xs ≡ true
unfolding select
taken_below task k n [] h l u = absurd (omega arith)
taken_below task k n (s ∷ xs) h l u = elim (Bool-cases (of_task task s)) [
  | inr other ↦ rw other (
      taken_below task k n xs (subst (Numbered k) (select_of_false (of_task task) s xs other) h) l
        (subst (λ zs. n < k + length zs) (select_of_false (of_task task) s xs other) u))
  | inl mine ↦
      let (first, others) = subst (Numbered k) (select_of_true (of_task task) s xs mine) h in
      let room : n < k + suc (length (select (of_task task) xs)) =
        subst (λ zs. n < k + length zs) (select_of_true (of_task task) s xs mine) u in
      elim (Bool-cases (s.step_number == n)) [
        | inl this ↦ rw (mine, this) refl
        | inr that ↦
            rw (mine, that)
              (taken_below task (suc k) n xs others (ground arith) (omega (arith, room)))
      ]
]

taken-append :
    (task n : ℕ) (xs ys : List TaskStep)
    → is_taken task n xs ≡ true
    → is_taken task n (xs ++ ys) ≡ true
taken-append task n [] ys h = ground arith
taken-append task n (x ∷ xs) ys h = ground (arith, taken-append task n xs ys)

taken_last :
    (task n : ℕ) (e : Emission) (xs : List TaskStep)
    → is_taken task n (xs ++ step_of task n e ∷ []) ≡ true
taken_last task n e [] = ground arith
taken_last task n e (x ∷ xs) = ground (arith, taken_last task n e xs)

max_step-append-le :
    (task : ℕ) (xs ys : List TaskStep) → max_step task xs ≤ max_step task (xs ++ ys)
unfolding max_step
max_step-append-le task [] ys = omega arith
max_step-append-le task (x ∷ xs) ys = ground (arith, max_step-append-le task xs ys)

-- Rows that are added leave what a writer holds.
IsHeld-append :
    (task : ℕ) (store : EventStore) (ys : List TaskStep) (p : Pc)
    → IsHeld task store p
    → IsHeld task (record store { steps = store.steps ++ ys }) p
IsHeld-append task store ys idle h = tt
IsHeld-append task store ys lost h = tt
IsHeld-append task store ys (chosen n e) (l, u) =
    (l, omega (arith, max_step-append-le task store.steps ys))
IsHeld-append task store ys (committed n e) h = taken-append task n store.steps ys h

IsBacked-append :
    (xs ys : List TaskStep) (published : List (ℕ × Event))
    → All (λ p. is_taken p.0 p.1.id xs ≡ true) published
    → All (λ p. is_taken p.0 p.1.id (xs ++ ys) ≡ true) published
IsBacked-append xs ys [] h = tt
IsBacked-append xs ys ((task, e) ∷ rest) (t, h) =
    (taken-append task e.id xs ys t, IsBacked-append xs ys rest h)

pub record Inv (task_of : ℕ → ℕ) (s : System) : Type 0 where
  pub numbered : (u : ℕ) → IsNumbered u s.store
  pub held : (i : ℕ) → IsHeld (task_of i) s.store (s.pc i)
  pub backed : IsBacked s.store

-- A number that is free, and no larger than the next, is the next.
next_of_free :
    (task n : ℕ) (store : EventStore)
    → IsNumbered task store
    → 1 ≤ n
    → n ≤ max_step task store.steps + 1
    → is_taken task n store.steps ≡ false
    → n ≡ 1 + length (select (of_task task) store.steps)
next_of_free task n store h l u free =
    let room = next_number task store h in
    elim (dec_le n (length (select (of_task task) store.steps))) [
      | yes below ↦
          absurd (ground (arith, taken_below task 1 n store.steps h l (omega arith), free))
      | no above ↦ omega (arith, room)
    ]

at_cases :
    (P : Pc → ℕ → Type 0) (pc : ℕ → Pc) (i : ℕ) (p : Pc)
    → P p i
    → ((j : ℕ) → P (pc j) j)
    → (j : ℕ) → P (at pc i p j) j
at_cases P pc i p h others j = elim (Bool-cases (i == j)) [
  | inl e ↦ rw e (subst (P p) ((==_iff i j).0 e) h)
  | inr e ↦ rw e (others j)
]

next_of_free' :
    (task u n : ℕ) (store : EventStore)
    → task ≡ u
    → IsNumbered u store
    → (1 ≤ n) × (n ≤ max_step task store.steps + 1)
    → is_taken task n store.steps ≡ false
    → n ≡ 1 + length (select (of_task u) store.steps)
next_of_free' task u n store same h (l, top) free =
    next_of_free u n store h l (subst (λ t. n ≤ max_step t store.steps + 1) same top)
      (subst (λ t. is_taken t n store.steps ≡ false) same free)

-- A publication leaves what a writer holds.
IsHeld-announce :
    (task : ℕ) (store : EventStore) (published : List (ℕ × Event)) (p : Pc)
    → IsHeld task store p
    → IsHeld task (record store { published = published }) p
IsHeld-announce task store published idle h = tt
IsHeld-announce task store published lost h = tt
IsHeld-announce task store published (chosen n e) h = h
IsHeld-announce task store published (committed n e) h = h

-- What a writer's step makes of the store, and of what it and the others hold.
record Kept (task : ℕ) (store store' : EventStore) (p' : Pc) : Type 0 where
  numbered : (u : ℕ) → IsNumbered u store'
  mine : IsHeld task store' p'
  others : (t : ℕ) (q : Pc) → IsHeld t store q → IsHeld t store' q
  backed : IsBacked store'

Move-Kept :
    {task : ℕ} {store store' : EventStore} {p p' : Pc}
    → Move task store p store' p'
    → ((u : ℕ) → IsNumbered u store)
    → IsHeld task store p
    → IsBacked store
    → Kept task store store' p'
Move-Kept (choose e) numbered held backed = record {
  numbered = numbered;
  mine = (omega arith, omega arith);
  others = λ t q h. h;
  backed = backed;
}
Move-Kept {task} {store} (insert n e free) numbered held backed = record {
  numbered = λ u.
      add_step-IsNumbered u task n e store (numbered u)
        (λ same. next_of_free' task u n store same (numbered u) held free);
  mine = taken_last task n e store.steps;
  others = λ t q h. IsHeld-append t store (step_of task n e ∷ []) q h;
  backed = IsBacked-append store.steps (step_of task n e ∷ []) store.published backed;
}
Move-Kept (conflict n e taken) numbered held backed = record {
  numbered = numbered;
  mine = tt;
  others = λ t q h. h;
  backed = backed;
}
Move-Kept {task} {store} (publish n e) numbered held backed = record {
  numbered = numbered;
  mine = tt;
  others = λ t q h. IsHeld-announce t store (announce task n e store).published q h;
  backed =
      All-append (λ p. is_taken p.0 p.1.id store.steps ≡ true) store.published _ backed (held, tt);
}
Move-Kept retry numbered held backed = record {
  numbered = numbered;
  mine = tt;
  others = λ t q h. h;
  backed = backed;
}

Step-Inv : {task_of : ℕ → ℕ} {s t : System} → Step task_of s t → Inv task_of s → Inv task_of t
Step-Inv {task_of} {s} (by i {store} {p} mv) inv =
    let kept = Move-Kept mv inv.numbered (inv.held i) inv.backed in
    record {
      numbered = kept.numbered;
      held =
          at_cases (λ q j. IsHeld (task_of j) store q) s.pc i p kept.mine
            (λ j. kept.others (task_of j) (s.pc j) (inv.held j));
      backed = kept.backed;
    }

pub Reach-Inv : {task_of : ℕ → ℕ} {s : System} → Reach task_of s → Inv task_of s
unfolding select
Reach-Inv start = record { numbered = λ u. tt; held = λ i. tt; backed = tt }
Reach-Inv (later r st) = Step-Inv st (Reach-Inv r)

-- However the steps of any number of writers interleave, the steps of each task are numbered from 1 on
-- without a gap in the order of their insertion, and every published event has the task and the number of a
-- step that is in the table.
pub writers-IsNumbered :
    {task_of : ℕ → ℕ} {s : System}
    → Reach task_of s
    → ((u : ℕ) → IsNumbered u s.store) × IsBacked s.store
writers-IsNumbered r = let inv = Reach-Inv r in (inv.numbered, inv.backed)
