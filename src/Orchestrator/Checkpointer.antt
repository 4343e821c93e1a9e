-- ===== src/Orchestrator/Checkpointer.antt =====
-- app/orchestrator/graph.py's checkpointer_context: the pool of connections and the tables in which langgraph
-- stores the state after each step.
use agentis_backend.Prelude.{ℕ, String, Bool, true, false, Option, none}
use agentis_backend.Config.{Settings, checkpointer_dsn}
use agentis_backend.Http.{Result, ok, err}

-- The arguments of AsyncConnectionPool.
pub record Pool : Type 0 where
  pub conninfo : String
  pub max_size : ℕ
  pub autocommit : Bool
  pub prepare_threshold : Option ℕ
  pub open_at_once : Bool

-- What is called outside: urlunparse of a parsed URL with another scheme, the entry of the pool's context and
-- AsyncPostgresSaver.setup, with their exceptions.
pub record Postgres : Type 0 where
  pub with_scheme : String → String → String
  pub enter : Pool → Result (Unit {0})
  pub setup : Pool → Result (Unit {0})

abbrev pool_of : Postgres → Settings → Pool
pool_of postgres cfg = record {
  conninfo = checkpointer_dsn postgres.with_scheme cfg;
  max_size = 4;
  autocommit = true;
  prepare_threshold = none;
  open_at_once = false;
}

abbrev set_up : Postgres → Pool → Result (Unit {0}) → Result (Unit {0})
set_up postgres pool (err e) = err e
set_up postgres pool (ok entered) = postgres.setup pool

-- checkpointer_context, up to its yield
unfoldable pub checkpointer_context : Postgres → Settings → Result (Unit {0})
unfolding checkpointer_dsn
checkpointer_context postgres cfg =
    let pool = pool_of postgres cfg in set_up postgres pool (postgres.enter pool)
