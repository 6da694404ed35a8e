-- ===== src/Request.antt =====
-- internal/curlu/client.go: the request that is sent, and the checks before it.
mod Defs
pub mod Headers
pub mod Written
pub mod Inline
pub mod Lines
pub mod Tests
unfoldable pub use Defs.*
