-- ===== src/Resolve.antt =====
-- internal/curlu/client.go: which address a connection is made to, and which options go together.
mod Defs
pub mod Rules
pub mod Transport
pub mod Tests
unfoldable pub use Defs.*
