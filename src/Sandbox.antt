-- ===== src/Sandbox.antt =====
-- app/sandbox/manager.py: the containers in which the tools run, and the sessions that remember them.
pub mod Spec
pub mod Address
pub mod Lifecycle
pub mod Sample
mod Examples
use agentis_backend.Prelude.{
  ℕ, zero, suc, ◌+◌, String, Bool, true, false, not, Option, none, some, List, [], ◌∷◌, ◌==◌, ltb,
  str_eq, if◌then◌else◌, select, find,
}
use agentis_backend.PyText.{◌⧺◌, is_empty, show}
use agentis_backend.Config.{Settings}
use agentis_backend.Sandbox.Spec.{ContainerSpec, container_spec}
use agentis_backend.Http.{Result, ok, err, crash, Exec, pure, fail, gets, modify, ◌>>=◌, ◌>>◌}

pub record SandboxSession : Type 0 where
  pub task_id : ℕ
  pub container_id : String
  pub endpoint : String

-- What the manager calls of docker, of the sandbox's server and of the clock. `task_text` is the text of a
-- task's id, by which the manager knows it; `run` starts a container and gives its id; `reload` reads the
-- container's networks with their addresses; `remove` tells whether get, stop and remove went through;
-- `healthy` whether the n-th request to /health had the status 200; `clock` is the n-th reading of
-- time.time(), in milliseconds.
pub record Docker : Type 0 where
  pub task_text : ℕ → String
  pub run : ContainerSpec → Result String
  pub reload : String → Result (List (String × String))
  pub remove : String → Bool
  pub healthy : String → ℕ → Bool
  pub clock : ℕ → ℕ

-- The dictionary of the sessions, and the containers that docker holds.
pub record Manager : Type 0 where
  pub sessions : List SandboxSession
  pub containers : List String

abbrev pub of_session : ℕ → SandboxSession → Bool
of_session task s = s.task_id == task

-- get_session
unfoldable pub get_session : ℕ → Manager → Option SandboxSession
get_session task m = find (of_session task) m.sessions

-- A key of the dictionary is taken out.
unfoldable pub drop_session : ℕ → Manager → Manager
drop_session task m = record m { sessions = select (λ s. not (of_session task s)) m.sessions }

-- The address of the first network that has one.
unfoldable pub first_address : List (String × String) → String
first_address [] = ""
first_address ((name, ip) ∷ rest) =
    let later = first_address rest in if is_empty ip then later else ip

unfoldable pub address_of : String → List (String × String) → String
address_of network [] = ""
address_of network ((name, ip) ∷ rest) =
    let later = address_of network rest in if str_eq name network then ip else later

module _ (cfg : Settings) (docker : Docker) where
  abbrev pub endpoint_of : (networks : List (String × String)) → String
  endpoint_of networks =
      let ip = address_of cfg.sandbox_network networks in
      "http://"
      ⧺ (if is_empty ip then first_address networks else ip)
      ⧺ ":"
      ⧺ show cfg.sandbox_rpc_port

  -- container.reload(), then the session. A container that cannot be read again stays, without a session.
  abbrev pub opened :
      ℕ → (id : String) → Result (List (String × String)) → Exec Manager SandboxSession
  opened task id (err e) m = (err e, m)
  opened task id (ok networks) m =
      let session : SandboxSession = record {
        task_id = task;
        container_id = id;
        endpoint = endpoint_of networks;
      } in
      (ok session, record m { sessions = session ∷ (drop_session task m).sessions })

  abbrev pub started : ℕ → Result String → Exec Manager SandboxSession
  started task (err e) m = (err e, m)
  started task (ok id) m =
      opened task id (docker.reload id) (record m { containers = id ∷ m.containers })

  -- _start_container
  unfoldable pub start_container : ℕ → Exec Manager SandboxSession
  unfolding container_spec
  start_container task = started task (docker.run (container_spec cfg (docker.task_text task)))

  abbrev pub without_container : ℕ → SandboxSession → Manager → Manager
  without_container task s m =
      if docker.remove s.container_id
      then record m { containers = select (λ c. not (str_eq c s.container_id)) m.containers }
      else m

  abbrev pub destroy_found : ℕ → Option SandboxSession → Manager → Manager
  destroy_found task none m = m
  destroy_found task (some s) m = without_container task s (drop_session task m)

  -- destroy_session: a session is forgotten even where its container is not removed.
  unfoldable pub destroy_session : ℕ → Manager → Manager
  destroy_session task m = destroy_found task (get_session task m) m

  -- The loop that waits for the server, at the n-th test of the clock: whether it became ready before the
  -- deadline, or none if the fuel does not last.
  unfoldable pub await_ready : (fuel : ℕ) → (endpoint : String) → (deadline n : ℕ) → Option Bool
  await_ready zero endpoint deadline n = none
  await_ready (suc fuel) endpoint deadline n =
      let later = await_ready fuel endpoint deadline (suc n) in
      if ltb (docker.clock n) deadline
      then (if docker.healthy endpoint n then some true else later)
      else some false

  abbrev pub settle : ℕ → SandboxSession → Option Bool → Exec Manager SandboxSession
  settle task s (some true) m = (ok s, m)
  settle task s _ m = (err (crash "RuntimeError"), destroy_session task m)

  -- create_session: 15 seconds, with half a second of sleep after each attempt.
  unfoldable pub create_session : ℕ → Exec Manager SandboxSession
  unfolding ◌>>=◌
  create_session task = start_container task >>= λ s.
      settle task s (await_ready 31 s.endpoint (docker.clock 0 + 15000) 1)
