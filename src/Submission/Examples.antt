-- ===== src/Submission/Examples.antt =====
-- The theorem about a submitted task at a concrete input.
use agentis_backend.Prelude.{none, some, []}
use agentis_backend.Config.{defaults}
use agentis_backend.Auth.Sample.{ann}
use agentis_backend.Tasks.Schemas.{TaskCreate}
use agentis_backend.Tasks.Api.{Backend, create_task}
use agentis_backend.Orchestrator.World.{World}
use agentis_backend.Orchestrator.Sample.{outside, world}
use agentis_backend.Races.Examples.{services, backend}
use agentis_backend.Worker.{run_agent_task}

abbrev body : TaskCreate
body = record {
  goal = "sum the numbers";
  language = none;
  max_iterations = none;
  allowed_tools = none;
  notify_webhook = none;
}

-- A worker's world once Ann's second task is there, and the API's once the worker has run it.
abbrev shared : World
shared = record world { tasks = (create_task defaults services 8 200 body ann backend).1.tasks }

abbrev later : Backend
later = record backend {
  tasks = (run_agent_task (λ s. some 8) defaults outside [] "8" shared).1.tasks;
}
