-- ===== src/Vfs/Tmpfs/Defs.antt =====
-- The functions of tmpfs.c, and `vfsAllocNode` of vfs.c, which they call. Memory does not run out here:
-- an allocation that fails is a panic of the page allocator.
use spctrx.Common.{
  ℕ, zero, suc, ◌+◌, ◌*◌, ◌%◌, ◌^◌, Bool, true, false, ◌||◌, List, [], ◌∷◌, ◌++◌, Option, none,
  some, Outcome, done, fault, ◌>>=◌, ◌>>◌, assert, from_some, ltb, leb, ◌==◌, if◌then◌else◌, length,
  set, replicate, take, drop,
}
use spctrx.Common.Words.{u64, page_size}
use spctrx.Common.Int.{ℤ, pos, negsuc}
use spctrx.Memory.Cstring.{strlen, strcmp, strcpy, strncpy}
use spctrx.Vfs.State.{type_dir, type_file, Vfs, Stale, at}

abbrev pub file_size : ℕ
file_size = 2 * page_size

abbrev pub is_zero : ℤ → Bool
is_zero (pos zero) = true
is_zero (pos (suc n)) = false
is_zero (negsuc n) = false

-- The new node has the fields that the memory held, but for `mnt`, and joins the mount's list.
unfoldable pub vfs_alloc_node : Stale → Vfs → ℕ → Outcome (ℕ × Vfs)
vfs_alloc_node stale s mnt = do
  m ← at s.mounts mnt
  let id = length s.nodes
  let node = stale.node
  done (
    id,
    record s {
      nodes = s.nodes ++ record node { mnt = mnt } ∷ [];
      mounts = set s.mounts mnt (record m { nodes = id ∷ m.nodes });
    },
  )

-- Only a file gets pages for its data, and `memset` clears them.
unfoldable pub tmpfs_alloc_node : Stale → Vfs → ℕ → List ℕ → ℕ → Outcome (ℕ × Vfs)
unfolding vfs_alloc_node
tmpfs_alloc_node stale s mnt name type = do
  (id, s') ← vfs_alloc_node stale s mnt
  array ← strncpy (stale.array 33) name 32
  let tmpfs_id = length s'.tmpfs_nodes
  let bytes = if type == type_file then some (replicate file_size 0) else none
  done (
    id,
    record s' {
      nodes =
          set s'.nodes id (record { type = type; mnt = mnt; fs_data = tmpfs_id; has_ops = true });
      tmpfs_nodes =
          s'.tmpfs_nodes ++ record { name = array; node = id; children = []; bytes = bytes } ∷ [];
    },
  )

unfoldable pub tmpfs_add_child : Vfs → ℕ → ℕ → Outcome Vfs
tmpfs_add_child s n child = do
  parent ← at s.nodes n
  t ← at s.tmpfs_nodes parent.fs_data
  c ← at s.nodes child
  done (record s {
    tmpfs_nodes = set s.tmpfs_nodes parent.fs_data (record t { children = c.fs_data ∷ t.children });
  })

unfoldable pub tmpfs_make : Stale → Vfs → ℕ → List ℕ → ℕ → Outcome Vfs
unfolding tmpfs_alloc_node tmpfs_add_child
tmpfs_make stale s n name type = do
  node ← at s.nodes n
  (child, s') ← tmpfs_alloc_node stale s node.mnt name type
  tmpfs_add_child s' n child

-- Both return 0 to their caller, whatever happened.
abbrev pub tmpfs_create : Stale → Vfs → ℕ → List ℕ → Outcome Vfs
tmpfs_create stale s n name = tmpfs_make stale s n name type_file

abbrev pub tmpfs_mkdir : Stale → Vfs → ℕ → List ℕ → Outcome Vfs
tmpfs_mkdir stale s n name = tmpfs_make stale s n name type_dir

-- `memcpy` to and from the pages of a file asserts a positive size; outside the pages it reaches
-- memory that is not the file's.
unfoldable pub copy_in : List ℕ → ℕ → List ℕ → Outcome (List ℕ)
copy_in bytes offset buf = do
  assert (ltb 0 (length buf))
  if ltb (length bytes) (offset + length buf)
      then fault
      else done (take offset bytes ++ (buf ++ drop (offset + length buf) bytes))

unfoldable pub copy_out : List ℕ → ℕ → ℕ → Outcome (List ℕ)
copy_out bytes offset size = do
  assert (ltb 0 size)
  if ltb (length bytes) (offset + size) then fault else done (take size (drop offset bytes))

-- `tmpfsReadWrite` with `write`: the size is that of the buffer. The result is the number of bytes.
unfoldable pub tmpfs_write : Vfs → ℕ → ℕ → List ℕ → Outcome (ℕ × Vfs)
tmpfs_write s n offset buf = do
  node ← at s.nodes n
  if node.type == type_dir || leb file_size (u64 (offset + length buf)) then done (0, s) else do
    t ← at s.tmpfs_nodes node.fs_data
    bytes ← from_some t.bytes
    bytes' ← copy_in bytes offset buf
    done (
      length buf,
      record s { tmpfs_nodes = set s.tmpfs_nodes node.fs_data (record t { bytes = some bytes' }) },
    )

-- `tmpfsReadWrite` without `write`: the result is the number of bytes and what the buffer gets.
unfoldable pub tmpfs_read : Vfs → ℕ → ℕ → ℕ → Outcome (ℕ × List ℕ)
tmpfs_read s n offset size = do
  node ← at s.nodes n
  if node.type == type_dir || leb file_size (u64 (offset + size)) then done (0, []) else do
    t ← at s.tmpfs_nodes node.fs_data
    bytes ← from_some t.bytes
    out ← copy_out bytes offset size
    done (size, out)

-- The loop over the children, with a result at the first name that compares equal.
unfoldable pub find_child : Vfs → List ℕ → List ℕ → Outcome (Option ℕ)
find_child s [] name = done none
find_child s (c ∷ cs) name = do
  let rest = find_child s cs name
  t ← at s.tmpfs_nodes c
  d ← strcmp t.name name
  if is_zero d then done (some t.node) else rest

unfoldable pub tmpfs_lookup : Vfs → ℕ → List ℕ → Outcome (Option ℕ)
unfolding find_child
tmpfs_lookup s n name = do
  node ← at s.nodes n
  t ← at s.tmpfs_nodes node.fs_data
  find_child s t.children name

-- The fields of `struct linux_dirent64` that `tmpfsReaddir` writes; `d_name` after the copy.
pub record Dirent : Type 0 where
  pub d_name : List ℕ
  pub d_type : ℕ
  pub d_reclen : ℕ

-- `sizeof(struct linux_dirent64)`: 8 + 4 + 2 + 1, with the padding to a multiple of 8.
abbrev pub sizeof_dirent : ℕ
sizeof_dirent = 16

-- The loop of `tmpfsReaddir` counts its position down; `buf` is the array at `d_name`.
unfoldable pub readdir_loop : Vfs → List ℕ → ℕ → List ℕ → Outcome (Option Dirent)
readdir_loop s [] offset buf = done none
readdir_loop s (c ∷ cs) (suc offset) buf = readdir_loop s cs offset buf
readdir_loop s (c ∷ cs) zero buf = do
  child ← at s.tmpfs_nodes c
  name ← strcpy buf child.name
  node ← at s.nodes child.node
  len ← strlen name
  done (
      some (record {
        d_name = name;
        d_type = node.type % 2 ^ 8;
        d_reclen = (sizeof_dirent + len + 1) % 2 ^ 16;
      }))

unfoldable pub tmpfs_readdir : Vfs → ℕ → ℕ → List ℕ → Outcome (Option Dirent)
unfolding readdir_loop
tmpfs_readdir s n offset buf = do
  node ← at s.nodes n
  t ← at s.tmpfs_nodes node.fs_data
  readdir_loop s t.children offset buf

-- "dev"
abbrev pub dev_name : List ℕ
dev_name = b'd' ∷ b'e' ∷ b'v' ∷ 0 ∷ []

unfoldable pub tmpfs_mount : Stale → Vfs → ℕ → Outcome Vfs
unfolding tmpfs_alloc_node
tmpfs_mount stale s mnt = do
  (root, s₁) ← tmpfs_alloc_node stale s mnt (0 ∷ []) type_dir
  m ← at s₁.mounts mnt
  tmpfs_mkdir stale (record s₁ { mounts = set s₁.mounts mnt (record m { root = some root }) }) root
      dev_name
