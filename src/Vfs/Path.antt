-- ===== src/Vfs/Path.antt =====
-- The loop of `vfsLookup` in kernel/src/filesystem/vfs.c, which splits a path into names.
mod Defs
mod Split
unfoldable pub use Defs.*
pub use Split.*
