-- ===== src/Tasks/Api/Stream.antt =====
-- What a client of the stream of a task receives.
use agentis_backend.Prelude.{
  ℕ, suc, ◌+◌, ◌-◌, ◌≤◌, ◌≡◌, refl, ap, ◌∙◌, subst, Bool, false, ◌||◌, Option, none, some, List, [],
  ◌∷◌, ◌++◌, arith, length, length-append, length-drop, drop, select, All, map, str_eq, ==_refl,
}
use agentis_backend.Http.{Result, ok, err}
use agentis_backend.Orchestrator.Events.{
  Event, Emission, EventStore, TaskStep, event_of, step_of, emit, of_task, replay, replayed,
  max_step,
}
use agentis_backend.Orchestrator.Events.Numbering.{
  Numbered, Numbered-drop, map-drop, IsNumbered, emit_eq, emit-IsNumbered, next_number, select_last,
  replay-drop,
}
use agentis_backend.Orchestrator.Events.Replay.{length-map}
use agentis_backend.Tasks.Model.{Task, is_terminal}
use agentis_backend.Tasks.Streaming.{Sent, event, heartbeat, live, event_generator}

-- The numbers of the events sent, and the events among the messages.
abbrev pub ids_of : List Sent → List ℕ
ids_of [] = []
ids_of (event e ∷ rest) = e.id ∷ ids_of rest
ids_of (heartbeat ∷ rest) = ids_of rest

abbrev pub received : List (Option Event) → List Event
received [] = []
received (none ∷ rest) = received rest
received (some e ∷ rest) = e ∷ received rest

abbrev pub ends : Event → Bool
ends e = str_eq e.type "task_completed" || str_eq e.type "task_failed"

-- What emitting one after the other publishes.
abbrev pub published_by : Emission → Result ℕ × EventStore → (EventStore → List Event) → List Event
published_by e (ok n, store) more = event_of n e ∷ more store
published_by e (err lost, store) more = more store

unfoldable pub broadcast : ℕ → List Emission → EventStore → List Event
broadcast task [] store = []
broadcast task (e ∷ es) store = published_by e (emit task e store) (broadcast task es)

-- k, k + 1, and so on.
abbrev pub Counts : ℕ → List ℕ → Type 0
Counts k [] = Unit
Counts k (n ∷ ns) = (n ≡ k) × Counts (suc k) ns

Counts-append :
    (k : ℕ) (xs ys : List ℕ) → Counts k xs → Counts (k + length xs) ys → Counts k (xs ++ ys)
Counts-append k [] ys h t = subst (λ n. Counts n ys) {x = k + 0} {y = k} (omega arith) t
Counts-append k (x ∷ xs) ys (e, h) t = (
  e,
  Counts-append (suc k) xs ys h
      (subst (λ n. Counts n ys) {x = k + suc (length xs)} {y = suc k + length xs} (omega arith) t),
)

ids-append : (xs ys : List Sent) → ids_of (xs ++ ys) ≡ ids_of xs ++ ids_of ys
ids-append [] ys = refl
ids-append (event e ∷ xs) ys = ap (◌∷◌ e.id) (ids-append xs ys)
ids-append (heartbeat ∷ xs) ys = ids-append xs ys

ids_of-map : (es : List Event) → ids_of (map event es) ≡ map (λ e. e.id) es
ids_of-map [] = refl
ids_of-map (e ∷ es) = ap (◌∷◌ e.id) (ids_of-map es)

-- Messages without a terminal event are all sent.
ids_of-live :
    (ms : List (Option Event))
    → All (λ e. ends e ≡ false) (received ms)
    → ids_of (live ms) ≡ map (λ e. e.id) (received ms)
unfolding live
ids_of-live [] h = refl
ids_of-live (none ∷ ms) h = ids_of-live ms h
ids_of-live (some e ∷ ms) (goes_on, h) = ground (arith, ids_of-live ms h)

Numbered-Counts :
    (k : ℕ) (xs : List TaskStep) → Numbered k xs → Counts k (map (λ e. e.id) (map replayed xs))
Numbered-Counts k [] h = tt
Numbered-Counts k (s ∷ xs) (e, h) = (e, Numbered-Counts (suc k) xs h)

-- The number of the steps that a task has.
abbrev pub steps_of : ℕ → EventStore → ℕ
steps_of task store = length (select (of_task task) store.steps)

steps_of-emit :
    (task : ℕ) (e : Emission) (store : EventStore)
    → steps_of task (emit task e store).1 ≡ suc (steps_of task store)
steps_of-emit task e store =
    rw
      (
        emit_eq task e store,
        select_last task task (max_step task store.steps + 1) e store.steps,
        ==_refl task,
        length-append (select (of_task task) store.steps)
            (step_of task (max_step task store.steps + 1) e ∷ []),
      )
      (omega arith)

published_eq :
    (task : ℕ) (e : Emission) (store : EventStore) (more : EventStore → List Event)
    → published_by e (emit task e store) more
      ≡ event_of (max_step task store.steps + 1) e ∷ more (emit task e store).1
published_eq task e store more = rw (emit_eq task e store)

-- What emissions publish on the channel of a task continues the numbering of its steps.
broadcast-Counts :
    (task : ℕ) (es : List Emission) (store : EventStore)
    → IsNumbered task store
    → Counts (suc (steps_of task store)) (map (λ e. e.id) (broadcast task es store))
      × (length (broadcast task es store) ≡ length es)
unfolding broadcast
broadcast-Counts task [] store h = (tt, refl)
broadcast-Counts task (e ∷ es) store h =
    let (counts, long) =
      broadcast-Counts task es (emit task e store).1 (emit-IsNumbered task task e store h) in
    rw (published_eq task e store (broadcast task es)) (
      (
        omega (arith, next_number task store h),
        subst (λ k. Counts k (map (λ e. e.id) (broadcast task es (emit task e store).1)))
            (ap suc (steps_of-emit task e store)) counts,
      ),
      ap suc long,
    )

-- The numbers that the replay sends, and those of the live part.
ids_of-event_generator :
    (task after : ℕ) (store : EventStore) (t : Task) (es : List Emission)
    (messages : List (Option Event))
    → IsNumbered task store
    → is_terminal t.status ≡ false
    → received messages ≡ broadcast task es store
    → All (λ e. ends e ≡ false) (received messages)
    → ids_of (event_generator task after store (some t) messages)
      ≡ map (λ e. e.id) (map replayed (drop after (select (of_task task) store.steps)))
        ++ map (λ e. e.id) (broadcast task es store)
unfolding event_generator
ids_of-event_generator task after store t es messages h goes_on same all = rw (
  goes_on,
  ids-append (map event (replay task after store)) (live messages),
  ids_of-map (replay task after store),
  ids_of-live messages all,
  same,
  replay-drop task after store h,
  map-drop replayed after (select (of_task task) store.steps),
)

length-ids :
    (k : ℕ) (xs : List TaskStep)
    → length (map (λ e. e.id) (map replayed (drop k xs))) ≡ length xs - k
length-ids k xs =
    length-map (λ e. e.id) (map replayed (drop k xs))
    ∙ length-map replayed (drop k xs)
    ∙ length-drop k xs

-- A client that has seen the first `after` events of a task that has not ended, and that subscribes before
-- the task's next emission, is sent the events after + 1, after + 2 and so on up to the last emitted, each
-- once and in order, if none of those emitted meanwhile is terminal; heartbeats may come between.
pub stream-Counts :
    (task after : ℕ) (store : EventStore) (t : Task) (es : List Emission)
    (messages : List (Option Event))
    → IsNumbered task store
    → after ≤ steps_of task store
    → is_terminal t.status ≡ false
    → received messages ≡ broadcast task es store
    → All (λ e. ends e ≡ false) (received messages)
    → let sent = ids_of (event_generator task after store (some t) messages) in
      Counts (after + 1) sent × (length sent ≡ steps_of task store - after + length es)
unfolding event_generator
stream-Counts task after store t es messages h le goes_on same all =
    let mine = select (of_task task) store.steps in
    let (counts, long) = broadcast-Counts task es store h in
    let old = map (λ e. e.id) (map replayed (drop after mine)) in
    rw (ids_of-event_generator task after store t es messages h goes_on same all) (
      Counts-append (after + 1) old (map (λ e. e.id) (broadcast task es store))
          (Numbered-Counts (after + 1) (drop after mine)
            (Numbered-drop after 1 (after + 1) mine (omega arith) h))
          (subst (λ k. Counts k (map (λ e. e.id) (broadcast task es store))) {x = suc (length mine)}
            {y = after + 1 + length old} (omega (arith, length-ids after mine)) counts),
      omega (
        arith,
        length-append old (map (λ e. e.id) (broadcast task es store)),
        length-ids after mine,
        long,
        length-map (λ e. e.id) (broadcast task es store),
      ),
    )
