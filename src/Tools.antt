-- ===== src/Tools.antt =====
-- app/tools.
pub mod Registry
pub mod Sandboxed
pub mod WebSearch
pub mod BuiltIn
mod Examples
