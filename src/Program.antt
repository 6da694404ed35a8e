-- ===== src/Program.antt =====
-- internal/curlu/run.go: the program, from its arguments to its exit code.
mod Defs
pub mod Ends
pub mod Tests
unfoldable pub use Defs.*
