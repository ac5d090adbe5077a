-- ===== src/LinkedList.antt =====
-- kernel/src/util/datastructures/ll.c and kernel/src/include/ll.h: cyclic doubly linked lists.
mod Defs
mod Ring
mod Delete
unfoldable pub use Defs.*
pub use Ring.*
pub use Delete.*
