-- ===== src/Memory/Block.antt =====
-- `memset`, `memcpy`, `memmove` and `memcmp` over a flat memory of bytes.
mod Defs
mod Move
mod Compare
unfoldable pub use Defs.*
pub use Move.*
pub use Compare.*
