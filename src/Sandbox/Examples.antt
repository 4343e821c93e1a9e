-- ===== src/Sandbox/Examples.antt =====
-- The theorems about the sandbox at concrete inputs.
use agentis_backend.Prelude.{◌+◌, ◌≢◌, none, [], arith}
use agentis_backend.Config.{defaults}
use agentis_backend.Sandbox.{await_ready, create_session}
use agentis_backend.Sandbox.Sample.{docker}
use agentis_backend.Sandbox.Lifecycle.{Sleeps, await_ends, Leaves, create_session_lem}

docker-Sleeps : Sleeps docker
docker-Sleeps = (omega arith, λ n. omega arith)

await_ends_example :
    await_ready defaults docker 31 "http://10.0.0.2:9999" (docker.clock 0 + 15000) 1 ≢ none
await_ends_example = await_ends defaults docker docker-Sleeps "http://10.0.0.2:9999"

create_session_lem_example :
    Leaves defaults docker 4
      (record { sessions = []; containers = [] })
      (create_session defaults docker 4 (record { sessions = []; containers = [] }))
create_session_lem_example =
    create_session_lem defaults docker 4 (record { sessions = []; containers = [] })
