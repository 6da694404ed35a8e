-- ===== src/Glob.antt =====
-- internal/curlu/glob.go: `expandGlob` and `expandRange`.
mod Defs
mod Product
pub mod Range
pub mod Grammar
pub mod Expand
pub mod Bound
pub mod Complete
pub mod Quote
pub mod Tests
unfoldable pub use Defs.*
