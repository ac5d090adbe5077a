-- ===== src/Vfs/Mount.antt =====
-- The rest of kernel/src/filesystem/vfs.c: mounts and lookup, and kernel/src/filesystem/vfsops.c.
mod Defs
mod Laws
mod Bytes
mod Create
mod Fresh
mod Start
unfoldable pub use Defs.*
pub use Laws.*
pub use Bytes.*
pub use Create.*
pub use Fresh.*
pub use Start.*
