-- ===== src/Response.antt =====
-- internal/curlu/client.go: reading a response and copying it to the output.
mod Defs
pub mod Block
pub mod Header
pub mod Output
pub mod Reply
pub mod Fuel
pub mod Tests
unfoldable pub use Defs.*
