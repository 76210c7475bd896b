-- ===== src/Server.antt =====
-- server.go, and the loop of one connection in client_handler.go.
mod Commands
mod Dispatch
mod Connection
mod Accept
pub mod Frame
pub mod Table
pub mod Names
pub mod Answer
pub mod Confined
pub mod Guard
pub mod Backoff
pub mod Lifetime
unfoldable pub use Commands.*
unfoldable pub use Dispatch.*
unfoldable pub use Connection.*
unfoldable pub use Accept.*
