-- ===== src/Worker.antt =====
-- app/worker: Celery's configuration, and the Celery task that runs an agent's task in a worker. Celery
-- hands it the text that the API's create_task gave to `delay`, again if a worker was lost before its
-- acknowledgement.
use agentis_backend.Prelude.{ℕ, String, Bool, true, false, Option, none, some, List, [], ◌∷◌}
use agentis_backend.Config.{Settings}
use agentis_backend.Http.{ok, err, crash, Exec}
use agentis_backend.Tools.Registry.{Registry}
use agentis_backend.Orchestrator.Runner.{run_task}
use agentis_backend.Orchestrator.World.{World, Outside}

-- run_agent_task, with uuid.UUID, which run_task calls first and whose ValueError nothing catches
unfoldable pub run_agent_task :
    (uuid : String → Option ℕ)
    → Settings
    → Outside
    → Registry
    → (task_id : String) → Exec World Unit
run_agent_task uuid cfg out registry task_id w = elim (uuid task_id) [
  | none ↦ (err (crash "ValueError"), w)
  | some id ↦ (ok tt, run_task cfg out registry false id w)
]

-- celery_app and its conf: how tasks are sent, and when a delivery is acknowledged.
pub record CeleryApp : Type 0 where
  pub name : String
  pub broker : String
  pub backend : String
  pub includes : List String
  pub task_serializer : String
  pub result_serializer : String
  pub accept_content : List String
  pub timezone : String
  pub enable_utc : Bool
  pub worker_concurrency : ℕ
  pub task_acks_late : Bool
  pub worker_prefetch_multiplier : ℕ
  pub task_track_started : Bool

unfoldable pub celery_app : Settings → CeleryApp
celery_app cfg = record {
  name = "agentis";
  broker = cfg.redis_broker_url;
  backend = cfg.redis_broker_url;
  includes = "app.worker.tasks" ∷ [];
  task_serializer = "json";
  result_serializer = "json";
  accept_content = "json" ∷ [];
  timezone = "UTC";
  enable_utc = true;
  worker_concurrency = cfg.worker_concurrency;
  task_acks_late = true;
  worker_prefetch_multiplier = 1;
  task_track_started = true;
}
