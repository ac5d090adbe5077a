-- ===== src/Spinlock.antt =====
-- kernel/src/cpu/spinlock.c and kernel/src/include/spinlock.h.
mod Defs
pub mod Threads
unfoldable pub use Defs.*
