-- ===== src/Text.antt =====
-- What the program uses of Go's `strings` package, over byte texts. A separator is one byte.
mod Defs
mod Laws
unfoldable pub use Defs.*
pub use Laws.*
