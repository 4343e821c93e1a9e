-- ===== src/Auth.antt =====
-- app/auth, app/models/user.py and app/routers/auth.py.
pub mod Model
pub mod Refresh
pub mod Keys
pub mod RateLimit
pub mod Register
pub mod Login
pub mod Sessions
pub mod Sample
mod Examples
