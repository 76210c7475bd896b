-- ===== src/Dirs.antt =====
-- handle_dirs.go: the working directory, and making, removing and listing directories.
mod Defs
mod Listing
pub mod Cwd
pub mod Pwd
unfoldable pub use Defs.*
unfoldable pub use Listing.*
