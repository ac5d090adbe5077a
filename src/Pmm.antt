-- ===== src/Pmm.antt =====
-- kernel/src/mem/pmm.c: the physical page allocator, a bitmap of pages behind a spinlock.
mod Defs
mod Alloc
mod Init
mod Series
mod Map
unfoldable pub use Defs.*
pub use Alloc.*
pub use Map.{IsMemmap, usable_page}
pub use Init.*
pub use Series.*
