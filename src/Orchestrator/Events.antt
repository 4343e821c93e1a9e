-- ===== src/Orchestrator/Events.antt =====
-- app/models/task.py's TaskStep and app/orchestrator/events.py: the persisted steps of the tasks, and the
-- events that are published beside them.
pub mod Numbering
pub mod Replay
pub mod Writers
mod Examples
use agentis_backend.Prelude.{
  ℕ, ◌+◌, String, Bool, false, Option, none, some, List, [], ◌∷◌, ◌++◌, ◌==◌, ltb, leb, ◌&&◌,
  if◌then◌else◌, select, any, map,
}
use agentis_backend.Http.{Exec, pure, fail}
use agentis_backend.Json.{Json}
use agentis_backend.Orchestrator.State.{Plan}

pub data TaskStepType : Type 0 where
  think tool_call tool_result reflect plan_update user_input context_summarized report :
      TaskStepType

-- The dictionaries that the emitting code builds.
pub data StepContent : Type 0 where
  plan : Plan → StepContent
  freed : (tokens_freed : ℕ) → StepContent
  thought : (content : String) → (tokens : ℕ) → StepContent
  call : (tool : String) → (params : Json) → (call_id : String) → StepContent
  outcome : (tool : String) → (output : Json) → (call_id : String) → (ok : Bool) → StepContent
  reflection : (confidence : String) → (decision note : Json) → StepContent
  summary : (summary : String) → StepContent
  failure : (error error_code : String) → (retryable : Bool) → StepContent

pub record TaskStep : Type 0 where
  pub task_id : ℕ
  pub step_number : ℕ
  pub step_type : TaskStepType
  pub content : StepContent
  pub tokens_used : ℕ
  pub duration_ms : Option ℕ

-- An event as a client of the stream sees it.
pub record Event : Type 0 where
  pub id : ℕ
  pub type : String
  pub content : StepContent

-- _SSE_TYPE
unfoldable pub sse_type : TaskStepType → String
sse_type think = "think"
sse_type tool_call = "tool_call"
sse_type tool_result = "tool_result"
sse_type reflect = "reflect"
sse_type plan_update = "plan_updated"
sse_type user_input = "user_input_required"
sse_type context_summarized = "context_summarized"
sse_type report = "task_completed"

-- The steps table, and the events published so far on the channel of each task.
pub record EventStore : Type 0 where
  pub steps : List TaskStep
  pub published : List (ℕ × Event)

abbrev pub of_task : ℕ → TaskStep → Bool
of_task task s = s.task_id == task

-- coalesce(max(step_number), 0) over a task's steps
unfoldable pub max_step : ℕ → List TaskStep → ℕ
max_step task [] = 0
max_step task (s ∷ rest) =
    let m = max_step task rest in
    if of_task task s then (if ltb m s.step_number then s.step_number else m) else m

-- What one call of `emit` says of the step.
pub record Emission : Type 0 where
  pub step_type : TaskStepType
  pub content : StepContent
  pub tokens_used : ℕ
  pub duration_ms : Option ℕ
  pub sse_type : Option String

abbrev pub event_type : Emission → String
event_type e = elim e.sse_type [ none ↦ sse_type e.step_type | some t ↦ t ]

abbrev pub event_of : ℕ → Emission → Event
event_of number e = record { id = number; type = event_type e; content = e.content }

abbrev pub step_of : ℕ → ℕ → Emission → TaskStep
step_of task number e = record {
  task_id = task;
  step_number = number;
  step_type = e.step_type;
  content = e.content;
  tokens_used = e.tokens_used;
  duration_ms = e.duration_ms;
}

-- (task_id, step_number) is unique in the table: an insertion of a pair that is there fails.
abbrev pub is_taken : ℕ → ℕ → List TaskStep → Bool
is_taken task number = any (λ s. of_task task s && s.step_number == number)

-- The row that emit inserts and commits, and the event that it publishes then.
abbrev pub add_step : ℕ → ℕ → Emission → EventStore → EventStore
add_step task number e store = record store { steps = store.steps ++ step_of task number e ∷ [] }

abbrev pub announce : ℕ → ℕ → Emission → EventStore → EventStore
announce task number e store = record store {
  published = store.published ++ (task, event_of number e) ∷ [];
}

-- EventEmitter.emit, where no other writer comes between its reading of the largest number and its commit.
unfoldable pub emit : ℕ → Emission → Exec EventStore ℕ
unfolding max_step sse_type
emit task e store =
    let number = max_step task store.steps + 1 in
    if is_taken task number store.steps
    then fail "IntegrityError" store
    else pure number (announce task number e (add_step task number e store))

-- EventEmitter.emit_failed_cancelled
unfoldable pub emit_failed_cancelled : ℕ → Exec EventStore ℕ
unfolding emit
emit_failed_cancelled task = emit task (record {
  step_type = report;
  content = failure "Task cancelled by user" "cancelled" false;
  tokens_used = 0;
  duration_ms = none;
  sse_type = some "task_failed";
})

-- ORDER BY step_number
unfoldable pub insert_step : TaskStep → List TaskStep → List TaskStep
insert_step s [] = s ∷ []
insert_step s (t ∷ rest) =
    if leb s.step_number t.step_number then s ∷ t ∷ rest else t ∷ insert_step s rest

unfoldable pub order_steps : List TaskStep → List TaskStep
unfolding insert_step
order_steps [] = []
order_steps (s ∷ rest) = insert_step s (order_steps rest)

-- A step as `replay` reports it.
abbrev pub replayed : TaskStep → Event
replayed s = record { id = s.step_number; type = sse_type s.step_type; content = s.content }

-- EventEmitter.replay
unfoldable pub replay : ℕ → (after : ℕ) → EventStore → List Event
unfolding order_steps select
replay task after store =
    map replayed (order_steps (select (λ s. of_task task s && ltb after s.step_number) store.steps))
