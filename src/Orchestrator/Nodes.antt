-- ===== src/Orchestrator/Nodes.antt =====
-- app/orchestrator/nodes.py. The children hold the nodes, and their names are passed on here.
mod Run
mod Think
mod Act
mod Reflect
mod Routes
unfoldable pub use Run.*
unfoldable pub use Think.*
unfoldable pub use Act.*
unfoldable pub use Reflect.*
unfoldable pub use Routes.*
