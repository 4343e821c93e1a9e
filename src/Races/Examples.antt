-- ===== src/Races/Examples.antt =====
-- The theorem about a cancelled run at a concrete input.
use agentis_backend.Prelude.{◌≡◌, refl, true, false, [], ◌∷◌, select}
use agentis_backend.Config.{defaults}
use agentis_backend.Http.{ok, err, crash}
use agentis_backend.Sandbox.Sample.{docker}
use agentis_backend.Auth.Sample.{ann}
use agentis_backend.Tasks.Model.{planning}
use agentis_backend.Tasks.Sample.{task, letters}
use agentis_backend.Tasks.Schemas.{to_response}
use agentis_backend.Tasks.Api.{Backend, Services, cancel_task}
use agentis_backend.Tasks.Api.Cancel.{cancelled_at}
use agentis_backend.Orchestrator.World.{World}
use agentis_backend.Orchestrator.Runner.{start_task, concluded}
use agentis_backend.Orchestrator.Runner.Ending.{IsOver}
use agentis_backend.Orchestrator.Sample.{outside, world}
use agentis_backend.Races.{cancel_task-run_task}

abbrev pub services : Services
services = record {
  delay = λ id. ok tt;
  revoke = λ id. err (crash "OperationalError");
  docker = docker;
  cursor_text = letters;
  matches = λ goal words. true;
}

-- Ann's task, which a worker has read.
abbrev pub backend : Backend
backend = record {
  tasks = task 7 1 planning ∷ [];
  events = record { steps = []; published = [] };
  queued = 7 ∷ [];
  revoked = [];
  sandboxes = record { sessions = []; containers = [] };
}

-- A worker's view of the table once the cancellation is stored.
abbrev going_on : World
going_on = record world { tasks = (cancel_task defaults services 350 7 ann backend).1.tasks }

cancel_task-run_task_example :
    ((cancel_task defaults services 350 7 ann backend).0
      ≡ ok (to_response (cancelled_at 350 (task 7 1 planning))))
    × (IsOver 7 (start_task defaults outside [] false (task 7 1 planning) going_on)
        × IsOver 7 (
            concluded defaults outside []
              (task 7 1 planning)
              (err (crash "TimeoutError"))
              going_on))
unfolding select
cancel_task-run_task_example =
    cancel_task-run_task defaults services outside [] false (err (crash "TimeoutError")) 350 ann
      (task 7 1 planning) (task 7 1 planning) backend going_on refl refl refl
