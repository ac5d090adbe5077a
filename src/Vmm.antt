-- ===== src/Vmm.antt =====
-- kernel/src/mem/vmm.c, kernel/src/include/paging.h and pmmZeroAlloc of kernel/src/mem/pmm.c: page
-- tables of four levels. The load of the root and the invalidation of the processor's cache are
-- assembly.
mod Offset
mod Defs
mod Translate
mod Tree
mod Grown
mod Walk
mod Descent
mod Lookup
mod Mappings
mod Unmap
mod Ranges
mod UnmapRanges
mod Remap
unfoldable pub use Offset.*
unfoldable pub use Defs.*
pub use Translate.*
pub use Tree.*
pub use Grown.*
pub use Walk.*
pub use Descent.*
pub use Lookup.*
pub use Mappings.*
pub use Unmap.*
pub use Ranges.*
pub use UnmapRanges.*
pub use Remap.*
