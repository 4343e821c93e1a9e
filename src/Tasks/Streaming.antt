-- ===== src/Tasks/Streaming.antt =====
-- app/routers/tasks.py: what stream_task sends.
use agentis_backend.Prelude.{
  ℕ, String, Option, none, some, List, [], ◌∷◌, ◌++◌, map, str_eq, if◌then◌else◌,
}
use agentis_backend.PyText.{is_empty, all_digits, int_onto}
use agentis_backend.Http.{Result, ok, err, crash}
use agentis_backend.Orchestrator.Events.{Event, EventStore, replay}
use agentis_backend.Tasks.Model.{Task, is_terminal}

-- What the stream sends: an event or a heartbeat.
pub data Sent : Type 0 where
  event : Event → Sent
  heartbeat : Sent

-- The live part of the stream: `none` is a time without a message; it ends with the messages, when the
-- client goes away, or after a terminal event.
unfoldable pub live : List (Option Event) → List Sent
live [] = []
live (none ∷ rest) = heartbeat ∷ live rest
live (some e ∷ rest) =
    let later = live rest in
    event e
    ∷ (if str_eq e.type "task_completed"
        then []
        else if str_eq e.type "task_failed"
        then []
        else later)

-- event_generator, after the number of the client's last event: the replay, then, unless the task is
-- terminal, the messages that come in once the subscription stands.
unfoldable pub event_generator :
    (task : ℕ) → (after : ℕ) → EventStore → Option Task → List (Option Event) → List Sent
event_generator task after store none messages =
    map event (replay task after store) ++ live messages
event_generator task after store (some t) messages =
    map event (replay task after store) ++ (if is_terminal t.status then [] else live messages)

-- The number after which the stream begins: that of the header Last-Event-ID, 0 without one.
unfoldable pub after_step : Option String → Result ℕ
unfolding all_digits int_onto
after_step none = ok 0
after_step (some text) =
    if is_empty text
    then ok 0
    else if all_digits text
    then elim (int_onto 0 text) [ none ↦ err (crash "ValueError") | some n ↦ ok n ]
    else ok 0
