-- ===== src/Data.antt =====
-- The commands that set up a data connection: PASV and EPSV of transfer_pasv.go, PORT and EPRT of
-- transfer_active.go.
mod Passive
mod Active
pub mod Address
pub mod Ports
pub mod Pending
unfoldable pub use Passive.*
unfoldable pub use Active.*
