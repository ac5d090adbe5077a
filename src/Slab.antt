-- ===== src/Slab.antt =====
-- kernel/src/mem/slab.c and kernel/src/include/slab.h: caches of objects of one size, in pages from the
-- page allocator.
mod Defs
mod Chain
mod Cache
mod Take
mod Make
mod Alloc
mod Free
unfoldable pub use Defs.*
pub use Chain.*
pub use Cache.*
pub use Take.*
pub use Make.*
pub use Alloc.*
pub use Free.*
