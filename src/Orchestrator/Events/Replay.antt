-- ===== src/Orchestrator/Events/Replay.antt =====
-- app/orchestrator/events.py: what EventEmitter.replay tells of the events that EventEmitter.emit published.
use agentis_backend.Prelude.{
  ℕ, suc, ◌+◌, ◌≡◌, refl, sym, ap, ◌∙◌, true, false, none, List, [], ◌∷◌, ◌++◌, arith, All, length,
  drop, map, select, ◌==◌, ==_iff, if◌then◌else◌, Bool-cases, inl, inr,
}
use mathlib.Core.List.{map-append, append_assoc, append-nil}
use agentis_backend.Orchestrator.Events.{
  Event, EventStore, Emission, of_task, step_of, event_of, max_step, emit, replayed, replay,
}
use agentis_backend.Orchestrator.Events.Numbering.{
  IsNumbered, emit_eq, emit-IsNumbered, next_number, select_last, replay-drop,
}

-- Emissions for tasks, one after the other.
abbrev pub emit_all : List (ℕ × Emission) → EventStore → EventStore
emit_all [] store = store
emit_all ((task, e) ∷ rest) store = emit_all rest (emit task e store).1

-- Those for one task.
abbrev pub for_task : ℕ → List (ℕ × Emission) → List Emission
for_task task [] = []
for_task task ((t, e) ∷ rest) = if t == task then e ∷ for_task task rest else for_task task rest

-- What who listens on the channel of a task is sent.
abbrev pub heard : ℕ → List (ℕ × Event) → List Event
heard task [] = []
heard task ((t, e) ∷ rest) = if t == task then e ∷ heard task rest else heard task rest

-- The events of emissions, numbered from k on.
abbrev pub announced : (k : ℕ) → List Emission → List Event
announced k [] = []
announced k (e ∷ es) = event_of k e ∷ announced (suc k) es

-- An emission for the task that leaves the type of its event to that of its step.
abbrev pub IsPlain : ℕ → ℕ × Emission → Type 0
IsPlain task (t, e) = t ≡ task → e.sse_type ≡ none

abbrev pub empty : EventStore
empty = record { steps = []; published = [] }

heard-append :
    (task : ℕ) (xs ys : List (ℕ × Event)) → heard task (xs ++ ys) ≡ heard task xs ++ heard task ys
heard-append task [] ys = refl
heard-append task ((t, e) ∷ xs) ys = ground (arith, heard-append task xs ys)

announced-append :
    (k : ℕ) (es : List Emission) (e : Emission)
    → announced k (es ++ e ∷ []) ≡ announced k es ++ event_of (k + length es) e ∷ []
announced-append k [] e = ap (λ n. event_of n e ∷ []) {x = k} {y = k + 0} (omega arith)
announced-append k (x ∷ es) e = ap (◌∷◌ (event_of k x)) (
    announced-append (suc k) es e
    ∙ ap (λ n. announced (suc k) es ++ event_of n e ∷ []) {x = suc k + length es}
        {y = k + suc (length es)} (omega arith))

length-announced : (k : ℕ) (es : List Emission) → length (announced k es) ≡ length es
length-announced k [] = refl
length-announced k (e ∷ es) = ap suc (length-announced (suc k) es)

replayed_plain :
    (task n : ℕ) (e : Emission) → e.sse_type ≡ none → replayed (step_of task n e) ≡ event_of n e
replayed_plain task n e h = rw h refl

-- The channel and the table tell the same of a task.
record Tells (task : ℕ) (store : EventStore) (es : List Emission) : Type 0 where
  numbered : IsNumbered task store
  live : heard task store.published ≡ announced 1 es
  stored : map replayed (select (of_task task) store.steps) ≡ announced 1 es

pub length-map {ℓ} : {A B : Type ℓ} → (f : A → B) (xs : List A) → length (map f xs) ≡ length xs
length-map f [] = refl
length-map f (x ∷ xs) = ap suc (length-map f xs)

module _ (task : ℕ) where
  next_is :
      (store : EventStore) (es : List Emission)
      → Tells task store es
      → max_step task store.steps + 1 ≡ 1 + length es
  next_is store es tells = omega (
    arith,
    next_number task store tells.numbered,
    sym (length-map replayed (select (of_task task) store.steps))
        ∙ ap length tells.stored
        ∙ length-announced 1 es,
  )

  emit_here :
      (t : ℕ) (e : Emission) (store : EventStore) (es : List Emission)
      → t ≡ task
      → (t == task) ≡ true
      → e.sse_type ≡ none
      → Tells task store es
      → Tells task (emit t e store).1 (es ++ e ∷ [])
  emit_here t e store es same here plain tells =
      let number : max_step t store.steps + 1 ≡ 1 + length es =
        ap (λ u. max_step u store.steps + 1) same ∙ next_is store es tells in
      let out = announced 1 es ++ event_of (1 + length es) e ∷ [] in
      record {
        numbered = emit-IsNumbered task t e store tells.numbered;
        live =
            rw (emit_eq t e store, number, announced-append 1 es e)
              (heard-append task store.published ((t, event_of (1 + length es) e) ∷ [])
                ∙ rw (here, tells.live) refl);
        stored =
            rw (emit_eq t e store, number, announced-append 1 es e)
              (ap (map replayed) (select_last task t (1 + length es) e store.steps)
                ∙ rw here (
                    map-append replayed (select (of_task task) store.steps)
                      (step_of t (1 + length es) e ∷ [])
                    ∙ rw (tells.stored, plain) refl));
      }

  emit_elsewhere :
      (t : ℕ) (e : Emission) (store : EventStore) (es : List Emission)
      → (t == task) ≡ false
      → Tells task store es
      → Tells task (emit t e store).1 es
  emit_elsewhere t e store es other tells =
      let number = max_step t store.steps + 1 in
      record {
        numbered = emit-IsNumbered task t e store tells.numbered;
        live = rw (emit_eq t e store) (
            heard-append task store.published ((t, event_of number e) ∷ [])
            ∙ rw (other, append-nil (heard task store.published)) tells.live);
        stored = rw (emit_eq t e store) (
            ap (map replayed) (select_last task t number e store.steps)
            ∙ rw (other, append-nil (select (of_task task) store.steps)) tells.stored);
      }

  emit_all-Tells :
      (es : List (ℕ × Emission)) (store : EventStore) (before : List Emission)
      → All (IsPlain task) es
      → Tells task store before
      → Tells task (emit_all es store) (before ++ for_task task es)
  emit_all-Tells [] store before plain tells = rw (append-nil before) tells
  emit_all-Tells ((t, e) ∷ es) store before (plain, rest) tells = elim (Bool-cases (t == task)) [
    | inl here ↦
        let same : t ≡ task = (==_iff t task).0 here in
        rw (here, sym (append_assoc before (e ∷ []) (for_task task es)))
          (emit_all-Tells es (emit t e store).1 (before ++ e ∷ []) rest
            (emit_here t e store before same here (plain same) tells))
    | inr other ↦ rw other (
        emit_all-Tells es (emit t e store).1 before rest
          (emit_elsewhere t e store before other tells))
  ]

  -- Emissions for whatever tasks, one after the other, from an empty table on: what is published on a task's
  -- channel are the events of its emissions, numbered from 1 on, and replay after a number gives the same events
  -- but the first ones up to that number, if each of the task's emissions leaves the type of its event to that of
  -- its step.
  pub emit_all-replay :
      (es : List (ℕ × Emission)) (after : ℕ)
      → All (IsPlain task) es
      → let store = emit_all es empty in
        (heard task store.published ≡ announced 1 (for_task task es))
        × (replay task after store ≡ drop after (announced 1 (for_task task es)))
  unfolding select
  emit_all-replay es after plain =
      let store = emit_all es empty in
      let tells =
        emit_all-Tells es empty [] plain (record { numbered = tt; live = refl; stored = refl }) in
      (tells.live, replay-drop task after store tells.numbered ∙ ap (drop after) tells.stored)
