-- ===== src/Tasks.antt =====
-- app/models/task.py, app/repositories/task.py and app/routers/tasks.py.
pub mod Model
pub mod Cursor
pub mod Repository
pub mod Schemas
pub mod Streaming
pub mod Api
pub mod Sample
mod Examples
