-- ===== src/Base/Dict.antt =====
-- Python's `dict`: each key once, in the order of its first insertion.
mod Defs
pub mod Pigeonhole
pub mod Equality
unfoldable pub use Defs.*
