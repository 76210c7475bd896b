-- ===== src/Auth.antt =====
-- USER and PASS: handle_auth.go.
mod Handlers
pub mod Laws
unfoldable pub use Handlers.*
