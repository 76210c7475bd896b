-- ===== src/Misc.antt =====
-- handle_misc.go: the commands on the session itself.
mod Security
mod Options
mod Features
mod Status
unfoldable pub use Security.*
unfoldable pub use Options.*
unfoldable pub use Features.*
unfoldable pub use Status.*
