-- ===== src/Tasks/Api/Examples.antt =====
-- The theorem about the stream of a task at a concrete input.
use agentis_backend.Prelude.{◌≡◌, refl, Option, none, some, List, [], ◌∷◌, arith, length, select}
use agentis_backend.Orchestrator.Events.{
  Emission, Event, EventStore, think, thought, emit, step_of, event_of,
}
use agentis_backend.Tasks.Model.{running}
use agentis_backend.Tasks.Sample.{task}
use agentis_backend.Tasks.Streaming.{event_generator}
use agentis_backend.Tasks.Api.Stream.{ids_of, Counts, broadcast, stream-Counts}

abbrev thinking : Emission
thinking = record {
  step_type = think;
  content = thought "next" 3;
  tokens_used = 3;
  duration_ms = none;
  sse_type = none;
}

-- Two steps of task 7 with one of another task between them.
abbrev stored : EventStore
stored = record {
  steps = step_of 7 1 thinking ∷ step_of 8 1 thinking ∷ step_of 7 2 thinking ∷ [];
  published = [];
}

abbrev messages : List (Option Event)
messages = none ∷ some (event_of 3 thinking) ∷ none ∷ some (event_of 4 thinking) ∷ []

-- A client that has seen the first event is sent the second, the third and the fourth.
stream-Counts_example :
    let sent = ids_of (event_generator 7 1 stored (some (task 7 1 running)) messages) in
    Counts 2 sent × (length sent ≡ 3)
unfolding broadcast emit select
stream-Counts_example =
    stream-Counts 7 1 stored (task 7 1 running) (thinking ∷ thinking ∷ []) messages
      (refl, (refl, tt)) (omega arith) refl refl (refl, (refl, tt))
