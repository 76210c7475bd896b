-- ===== src/Text.antt =====
-- Go strings as byte lists, with the functions of the strings and strconv packages that the server
-- calls.
mod Defs
pub mod Compare
pub mod Split
pub mod Decimal
pub mod Quote
unfoldable pub use Defs.*
