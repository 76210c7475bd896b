-- ===== src/Transfer.antt =====
-- The transfer connection of a client: closeTransfer, Close, TransferOpen, TransferClose and
-- checkDataConnectionRequirement of client_handler.go, the transfer handlers of transfer_pasv.go
-- and transfer_active.go, and handleABOR of handle_misc.go.
mod Defs
pub mod Open
pub mod Replies
unfoldable pub use Defs.*
