-- ===== src/Connect.antt =====
-- internal/curlu/client.go and tcpraw.go: which URLs are requested and how a connection to them is made.
mod Defs
mod Dial
mod Quic
pub mod Attempts
pub mod Reach
pub mod Share
pub mod Url
pub mod Targets
pub mod Refusals
pub mod Tests
unfoldable pub use Defs.*
unfoldable pub use Dial.*
unfoldable pub use Quic.*
