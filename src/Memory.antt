-- ===== src/Memory.antt =====
-- kernel/src/util/string.c: memory blocks and C strings. The assertions that a pointer is not null are
-- those of the callers' pointers and are kept where a caller can pass 0.
pub mod Block
pub mod Cstring
