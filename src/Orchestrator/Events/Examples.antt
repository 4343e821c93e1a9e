-- ===== src/Orchestrator/Events/Examples.antt =====
-- The theorems about the writers of events at concrete inputs.
use agentis_backend.Prelude.{ℕ, refl, none}
use agentis_backend.Orchestrator.Events.{Emission, think, thought, max_step}
use agentis_backend.Orchestrator.Events.Numbering.{IsNumbered}
use agentis_backend.Orchestrator.Events.Writers.{
  System, Reach, start, later, by, choose, insert, conflict, publish,
}
use agentis_backend.Orchestrator.Events.Writers.Safety.{IsBacked, writers-IsNumbered}

abbrev thinking : Emission
thinking = record {
  step_type = think;
  content = thought "first" 3;
  tokens_used = 3;
  duration_ms = none;
  sse_type = none;
}

-- Two writers of one task read the same number; the second to insert loses, and the first publishes.
race : (s : System) × Reach (λ i. 7) s
unfolding max_step
race = (
  _,
  later
      (later
        (later (later (later start (by 0 (choose thinking))) (by 1 (choose thinking)))
          (by 0 (insert 1 thinking refl)))
        (by 1 (conflict 1 thinking refl)))
      (by 0 (publish 1 thinking)),
)

writers-IsNumbered_example : ((u : ℕ) → IsNumbered u race.0.store) × IsBacked race.0.store
writers-IsNumbered_example = writers-IsNumbered race.1
