-- ===== src/Vfs/Tmpfs.antt =====
-- kernel/src/filesystem/tmpfs/tmpfs.c.
mod Defs
mod Data
mod Names
mod Listing
unfoldable pub use Defs.*
pub use Data.*
pub use Names.*
pub use Listing.*
