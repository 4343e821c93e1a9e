-- ===== src/Lib.antt =====
-- The verification library of agentis-backend: an API that runs an agent on tasks.
--
-- Parts, and the files that model them:
--   app/routers/auth.py, app/auth, app/models/user.py: Auth. Model has the rows and the libraries
--     (hashing, JWT, UUIDs are fields of Platform); Refresh has refresh_token and logout; Keys the API
--     keys and get_current_user; Register registration, Login login with the counter of failures, and the
--     profile; RateLimit has check_rate_limit, which no code calls. Sessions says what the endpoints may
--     do to the sessions of the users, as commands on the lists of refresh tokens that are not revoked.
--   app/routers/tasks.py, app/schemas/task.py: Tasks/Schemas, Tasks/Streaming and Tasks/Api, one function
--     per endpoint. They call app/repositories/task.py, Tasks/Repository and Tasks/Cursor, over
--     app/models/task.py, Tasks/Model.
--   app/orchestrator: Orchestrator. State, Context, Prompts, Budget and Events follow the files of the
--     same names; Nodes has nodes.py, a module for each node; Graph has graph.py and the execution, one
--     node in each step; Checkpointer has graph.py's checkpointer_context; World what a run of a task
--     changes and calls, and Runner runner.py's run_task, which calls the graph, the sandbox and the
--     memory.
--   app/memory/short_term.py: Memory. app/sandbox/manager.py: Sandbox. app/tools/registry.py:
--     Tools/Registry.
--   app/sandbox/rpc_client.py and the tools that call it, in app/tools: Tools/Sandboxed.
--   app/tools/web_search.py: Tools/WebSearch. app/tools/init_registry.py, and the tools as they are
--     registered: Tools/BuiltIn.
--   app/orchestrator/llm.py and observability.py: Orchestrator/Llm.
--   app/main.py's exception handlers, app/config.py, app/database.py, app/logging_config.py: Http,
--     Config, Database, Logging.
--   alembic/versions: Migrations. Ddl has alembic's operations as data, InitialSchema the first
--     migration, with its tables in two children.
--   app/main.py's application: Application. Its endpoint has a clause for each endpoint of the
--     routers, handle adds the dependency get_current_user where the endpoint has it, and serve the
--     session of a request, from its opening to its end. Requests has what is asked and replied, Startup the lifespan.
--   app/worker: Worker.
--   app/models, as declarations of tables: Models, which is compared with the first migration.
--   PyText and Json have the operations of Python's str and of parsed JSON that the code uses; Prelude
--     has the shared helpers: Boolean tests, lists measured by native numbers, and queries over tables.
--
-- How state is modelled. A table is a list of rows, a query `select` or `count`, an UPDATE `update_where`. A
-- handler is an action Exec on its state: what it wrote before it failed is in the state that comes back. A
-- session (Database) holds what it sees beside what is committed. A failure is an HTTPException, a crash by
-- any other exception, or BudgetExceeded. Random choices, times and ids are arguments. UUIDs are numbers.
-- A handler runs in one piece, without other requests in between. The exception is the emitter, whose calls
-- in the worker and the API do meet: Events/Writers has its reading, its insertion and its publication as
-- steps of a relation on systems of any number of writers; and Races has a cancellation that comes while a
-- worker runs the task. Submission follows a task from the API over a worker to the answer of the API.
--
-- Bounds and fuel. The graph runs on the number of steps that run_task sets as langgraph's recursion limit,
-- max_iterations * 4 + 10, an outcome of its own past it. The wait for a sandbox has 31 tests of the clock:
-- 15 seconds at half a second each. Following the pages of a listing has as many pages as the caller allows.
--
-- Not modelled: the constructors of the language models and of their observers, what Celery, langgraph's
-- checkpoints and structlog do with their configuration, log entries, and the expiry
-- of Redis's keys but those of failed logins.
pub mod Prelude
pub mod Http
pub mod Database
pub mod Config
pub mod Logging
pub mod PyText
pub mod Json
pub mod Auth
pub mod Tools
pub mod Migrations
pub mod Models
pub mod Application
pub mod Worker
pub mod Races
pub mod Submission
pub mod Orchestrator
pub mod Memory
pub mod Sandbox
pub mod Tasks
