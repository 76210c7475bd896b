-- ===== src/Tests.antt =====
-- The theorems of the other modules at concrete inputs.
mod World
mod Paths
mod Sessions
mod Servers
mod Files
mod Store
