-- ===== src/Hello.antt =====
-- internal/curlu/utls.go: what is changed of a ClientHello before the handshake, and what its outcome
-- is taken for.
mod Defs
pub mod Alpn
pub mod Extensions
pub mod Grease
pub mod Ciphers
pub mod Tests
unfoldable pub use Defs.*
