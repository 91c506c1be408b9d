-- ===== src/Text.antt =====
-- The functions of `str` that the program uses, over a text's bytes, and their laws.
mod Defs
mod Laws
mod Trim
pub mod Lines
pub mod Search
pub mod Decimal
pub use Defs.*
pub use Laws.*
unfoldable pub use Trim.{trim_start, trim_end, trim}
