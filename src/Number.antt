-- ===== src/Number.antt =====
-- `strconv.ParseUint` and `FormatUint`, with the laws that relate them.
mod Defs
pub mod Decimal
unfoldable pub use Defs.*
