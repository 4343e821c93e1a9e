-- ===== src/Application/Startup.antt =====
-- app/main.py's lifespan: what happens before the application serves its first request.
use agentis_backend.Prelude.{ℕ, Option, none, some}
use agentis_backend.Config.{Settings}
use agentis_backend.Http.{Result, ok, err, crash}
use agentis_backend.Tools.Registry.{Registry}
use agentis_backend.Tools.BuiltIn.{Network, register_all_tools}

-- init_db, of the database's answer to SELECT 1: it raises what the query raises.
unfoldable pub init_db : (select_one : Result ℕ) → Result (Unit {0})
init_db (ok one) = ok tt
init_db (err e) = err e

abbrev registered : Option Registry → Result Registry
registered none = err (crash "ValueError")
registered (some registry) = ok registry

-- lifespan, up to its yield: the registry with which requests are served.
unfoldable pub lifespan : Settings → Network → (select_one : Result ℕ) → Registry → Result Registry
unfolding init_db
lifespan cfg net select_one registry = elim (init_db select_one) [
  | ok done ↦ registered (register_all_tools cfg net registry)
  | err e ↦ err e
]
