-- ===== src/Orchestrator/Events/Writers.antt =====
-- Several writers of events at once: the emitters of app/orchestrator/events.py in the worker and in the API,
-- whose reading of the largest number, insertion and publication interleave in any order.
pub mod Safety
use agentis_backend.Prelude.{ℕ, ◌+◌, ◌≡◌, true, false, List, [], ◌==◌, if◌then◌else◌}
use agentis_backend.Orchestrator.Events.{
  EventStore, Emission, max_step, is_taken, add_step, announce,
}

-- Where a writer stands in a call of emit: it has not begun, it has read the number for its step, the step is
-- committed, or the insertion failed.
pub data Pc : Type 0 where
  idle : Pc
  chosen : (number : ℕ) → (e : Emission) → Pc
  committed : (number : ℕ) → (e : Emission) → Pc
  lost : Pc

-- What a writer of `task` does in one step. The insertion fails if another writer has committed the number.
-- After a failure or a publication the writer may begin again.
pub data Move (task : ℕ) (store : EventStore) : Pc → EventStore → Pc → Type 0 where
  choose : (e : Emission) → Move task store idle store (chosen (max_step task store.steps + 1) e)
  insert :
      (n : ℕ) (e : Emission)
      → is_taken task n store.steps ≡ false
      → Move task store (chosen n e) (add_step task n e store) (committed n e)
  conflict :
      (n : ℕ) (e : Emission)
      → is_taken task n store.steps ≡ true
      → Move task store (chosen n e) store lost
  publish : (n : ℕ) (e : Emission) → Move task store (committed n e) (announce task n e store) idle
  retry : Move task store lost store idle

-- The store, and where each writer stands.
pub record System : Type 0 where
  pub store : EventStore
  pub pc : ℕ → Pc

abbrev pub at : (ℕ → Pc) → ℕ → Pc → ℕ → Pc
at pc i p j = if i == j then p else pc j

-- `task_of` is the task of each writer's emitter.
pub data Step (task_of : ℕ → ℕ) (s : System) : System → Type 0 where
  by :
      (i : ℕ) {store : EventStore} {p : Pc}
      → Move (task_of i) s.store (s.pc i) store p
      → Step task_of s (record { store = store; pc = at s.pc i p })

abbrev pub init : System
init = record { store = record { steps = []; published = [] }; pc = λ i. idle }

pub data Reach (task_of : ℕ → ℕ) : System → Type 0 where
  start : Reach task_of init
  later : {s t : System} → Reach task_of s → Step task_of s t → Reach task_of t
