-- ===== src/Options.antt =====
-- internal/curlu/options.go: the command line, with `resolveUTLSHello` of utls.go.
mod Defs
mod Value
mod Table
mod Parse
pub mod Rounds
pub mod Forms
pub mod Accepted
pub mod Rule
pub mod Split
pub mod Examples
pub mod Tests
pub use Defs.*
unfoldable pub use Value.*
unfoldable pub use Table.*
unfoldable pub use Parse.*
