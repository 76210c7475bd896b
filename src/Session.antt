-- ===== src/Session.antt =====
-- The state of one client connection (clientHandler of client_handler.go), what it is given from
-- outside (driver.go), and the monad of its methods.
mod Types
mod Driver
mod State
mod Monad
mod Context
pub mod Leaves
pub mod Tame
unfoldable pub use Types.*
unfoldable pub use Driver.*
unfoldable pub use State.*
unfoldable pub use Monad.*
unfoldable pub use Context.*
