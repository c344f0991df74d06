-- ===== src/Text.antt =====
-- Python's `str`: the type and its operations, `int(s)`, and `str(u)` of a UUID.
mod Defs
pub mod Strip
mod Numbers
mod Uuid
mod Equality
pub mod Substrings
pub use Equality.{text_eq_iff}
unfoldable pub use Defs.*
unfoldable pub use Numbers.{parse_int}
unfoldable pub use Uuid.{uuid_str}
