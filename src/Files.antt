-- ===== src/Files.antt =====
-- handle_files.go: transfers of files, and the commands on files.
mod Copy
mod Transfers
mod Params
mod Combine
mod Site
pub mod Meta
mod Hash
pub mod Opening
pub mod Concat
pub mod Digest
pub mod Quoted
pub mod Delivery
pub mod Complete
pub mod Rest
pub mod Resumed
pub mod SetTime
pub mod Rename
unfoldable pub use Copy.*
unfoldable pub use Transfers.*
unfoldable pub use Params.*
unfoldable pub use Combine.*
unfoldable pub use Site.*
unfoldable pub use Meta.*
unfoldable pub use Hash.*
