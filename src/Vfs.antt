-- ===== src/Vfs.antt =====
-- kernel/src/filesystem/vfs.c, vfsops.c and tmpfs/tmpfs.c with their headers: the node tree, mounts,
-- path lookup, and the only file system behind them.
pub mod Mount
pub mod Path
pub mod State
pub mod Tmpfs
