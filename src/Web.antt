-- ===== src/Web.antt =====
-- internal/web: who may call what, and the handlers of user management. A handler takes the
-- accounts and answers with a response and the accounts that it leaves.
pub mod Api
pub mod Middleware
pub mod Users
pub mod Router
mod Samples
mod ApiSamples
