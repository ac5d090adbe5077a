-- ===== src/Panic.antt =====
-- kernel/src/kernel/panic.c: what a panic reports before it halts.
mod Defs
mod Laws
unfoldable pub use Defs.*
pub use Laws.*
