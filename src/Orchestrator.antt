-- ===== src/Orchestrator.antt =====
-- app/orchestrator.
pub mod State
pub mod Context
pub mod Events
pub mod Prompts
pub mod Nodes
pub mod Graph
pub mod Llm
pub mod Budget
pub mod Checkpointer
pub mod World
pub mod Runner
pub mod Sample
mod Examples
