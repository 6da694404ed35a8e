-- ===== src/Muxed.antt =====
-- internal/curlu/http2.go: the requests on one HTTP/2 or HTTP/3 connection, and http3.go: the errors.
mod Defs
pub mod Key
pub mod Values
pub mod Loop
pub mod Defaults
pub mod Fields
mod Stream
pub mod Output
pub mod Tests
unfoldable pub use Defs.*
unfoldable pub use Stream.*
