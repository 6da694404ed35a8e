-- ===== src/Tcp.antt =====
-- internal/curlu/tcpraw.go: the TCP connection behind a crafted SYN.
mod Defs
mod Handshake
mod Route
pub mod Write
pub mod Receive
pub mod Transfer
pub mod Delivery
pub mod Events
pub mod Established
pub mod Tests
unfoldable pub use Defs.*
unfoldable pub use Handshake.*
unfoldable pub use Route.*
