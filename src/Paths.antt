-- ===== src/Paths.antt =====
-- The path package of Go on slash-separated paths, and the two functions of handle_dirs.go that
-- resolve what a client names against its working directory.
mod Defs
pub mod Clean
pub mod Fold
pub mod Trailing
pub mod Walks
mod Finds
pub mod Relative
unfoldable pub use Defs.*
