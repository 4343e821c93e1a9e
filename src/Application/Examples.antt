-- ===== src/Application/Examples.antt =====
-- The theorem about the access to the API at a concrete input.
use agentis_backend.Prelude.{◌≡◌, refl, true, none, some, [], ◌∷◌, String}
use agentis_backend.Config.{defaults}
use agentis_backend.Prelude.{select, update_where}
use agentis_backend.Http.{ok, ◌>>=◌}
use agentis_backend.Auth.Keys.{get_current_user, by_api_key}
use agentis_backend.Auth.Model.{ApiKey, get_user}
use agentis_backend.Auth.Sample.{lib, db}
use agentis_backend.Sandbox.Sample.{docker}
use agentis_backend.Tasks.Sample.{letters, task}
use agentis_backend.Tasks.Model.{running}
use agentis_backend.Tasks.Api as Tasks
use agentis_backend.Tasks.Api.{Backend, Services, stop_task}
use agentis_backend.Tasks.Repository as Repo
use agentis_backend.Tasks.Repository.{cancel_found}
use agentis_backend.Sandbox.{destroy_session}
use agentis_backend.Orchestrator.Events.{emit_failed_cancelled}
use agentis_backend.Auth.Login.{no_fails}
use agentis_backend.Application.{Deployment, App, endpoint, handle, serve}
use agentis_backend.Application.Requests as Requests
use agentis_backend.Application.Requests.{Credentials, Chance, show_usage, usage}

abbrev deployment : Deployment
deployment = record {
  settings = defaults;
  platform = lib;
  validation = record { isupper = λ c. true; isdigit = λ c. true; report = λ s. s };
  services = record {
    delay = λ id. ok tt;
    revoke = λ id. ok tt;
    docker = docker;
    cursor_text = letters;
    matches = λ goal words. true;
  };
  isoformat = λ t. "now";
}

-- Ann has a key that expires at 1000, and a running task.
abbrev key : ApiKey
key = record {
  id = 9;
  user_id = 1;
  key_hash = "agentis_sk_x";
  label = none;
  created_at = 0;
  last_used_at = none;
  expires_at = some 1000;
  revoked_at = none;
}

abbrev app : App
app = record {
  auth = record db { api_keys = key ∷ [] };
  fails = λ email. no_fails;
  backend = record {
    tasks = task 5 1 running ∷ [];
    events = record { steps = []; published = [] };
    queued = [];
    revoked = [];
    sandboxes = record { sessions = []; containers = [] };
  };
}

abbrev chance : Chance
chance = record {
  now = 100;
  now_us = 100000000;
  user_id = 2;
  token_id = 3;
  key_id = 4;
  task_id = 6;
  raw = "r";
}

abbrev with_key : String → Credentials
with_key text = record { x_api_key = some text; authorization = none; cookie = none }

-- A request that reads answers, and forgets that the key was used.
usage_shown : serve deployment chance (with_key "agentis_sk_x") show_usage app ≡ (ok (usage 0), app)
unfolding serve handle endpoint get_current_user by_api_key ◌>>=◌ select get_user update_where
usage_shown = refl

-- One that commits stores it.
use_stored :
    (serve deployment chance (with_key "agentis_sk_x") (Requests.cancel_task 5) app).1.auth.api_keys
    ≡ record key { last_used_at = some 100 } ∷ []
unfolding serve handle endpoint get_current_user by_api_key ◌>>=◌ select get_user update_where
    Tasks.cancel_task Repo.cancel_task Repo.get_task cancel_found stop_task destroy_session
    emit_failed_cancelled
use_stored = refl
