-- ===== src/Vfs/State.antt =====
-- The structs of kernel/src/include/vfs.h and tmpfs.h. A pointer to a node or a mount is its index among
-- those allocated so far, and a null pointer is `none`. The doubly linked lists are lists, front first.
use spctrx.Common.{ℕ, Bool, List, Option, Outcome, get_elem?, from_some}

abbrev pub type_dir : ℕ
type_dir = 1

abbrev pub type_file : ℕ
type_file = 2

-- `ops` is null or `&tmpfsHandler`, the only table of operations there is; `has_ops` tells which.
pub record FsNode : Type 0 where
  pub type : ℕ
  pub mnt : ℕ
  pub fs_data : ℕ
  pub has_ops : Bool

-- `data` is called `bytes`; a directory has none.
pub record TmpfsNode : Type 0 where
  pub name : List ℕ
  pub node : ℕ
  pub children : List ℕ
  pub bytes : Option (List ℕ)

pub record FsMnt : Type 0 where
  pub type : List ℕ
  pub dev : List ℕ
  pub path : List ℕ
  pub mountpoint : ℕ
  pub root : Option ℕ
  pub nodes : List ℕ

-- `mnts` and `root` of vfs.c, and all that has been allocated.
pub record Vfs : Type 0 where
  pub nodes : List FsNode
  pub tmpfs_nodes : List TmpfsNode
  pub mounts : List FsMnt
  pub mnts : List ℕ
  pub root : ℕ

-- What memory from the slab allocator holds before anything is written to it: the bytes of an array of
-- the given length, and the fields of a node.
pub record Stale : Type 0 where
  pub array : ℕ → List ℕ
  pub node : FsNode

-- Access through a pointer.
abbrev pub at {ℓ} : {A : Type ℓ} → List A → ℕ → Outcome A
at xs i = from_some (get_elem? xs i)
