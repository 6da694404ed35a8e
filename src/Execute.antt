-- ===== src/Execute.antt =====
-- internal/curlu/client.go: `execute`, the whole transfer.
mod Defs
pub mod Exchange
pub mod Whole
pub mod Ends
pub mod Tests
unfoldable pub use Defs.*
