-- ===== src/Server/Frame.antt =====
-- What the commands leave of a client: its driver, its user and its working directory.
pub mod Simple
pub mod Misc
pub mod Combine
pub mod Hash
pub mod Transfers
pub mod Listing
pub mod Status
pub mod Passive
pub mod Login
pub mod Run
pub mod Loop
