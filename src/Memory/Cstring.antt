-- ===== src/Memory/Cstring.antt =====
-- `strlen`, `strcmp`, `strcpy` and `strncpy` over arrays of bytes.
mod Defs
mod Laws
unfoldable pub use Defs.*
pub use Laws.*
