-- ===== src/Fingerprint.antt =====
-- internal/curlu/ja4t.go: JA4T fingerprints and the TCP options that carry them.
mod Defs
pub mod Valid
pub mod Print
pub mod Wire
pub mod Tests
unfoldable pub use Defs.*
