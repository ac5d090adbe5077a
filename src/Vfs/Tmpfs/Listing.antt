-- ===== src/Vfs/Tmpfs/Listing.antt =====
-- The reading of a directory, position by position.
use spctrx.Common.{
  ℕ, zero, suc, ◌+◌, ◌%◌, ◌^◌, ◌≤◌, ◌≡◌, refl, List, [], ◌∷◌, ◌++◌, none, some, done, arith, length,
  get_elem?,
}
use spctrx.Memory.Cstring.{IsText, strcpy_lem, strlen-length}
use spctrx.Vfs.State.{FsNode, TmpfsNode, Vfs}
use spctrx.Vfs.Tmpfs.Defs.{sizeof_dirent, readdir_loop, tmpfs_readdir}

-- An entry with a name and a node.
pub record IsListed (s : Vfs) (c : ℕ) (name : List ℕ) : Type 0 where
  pub entry : TmpfsNode
  pub node : FsNode
  pub rest : List ℕ
  pub has_entry : get_elem? s.tmpfs_nodes c ≡ some entry
  pub has_node : get_elem? s.nodes entry.node ≡ some node
  pub named : entry.name ≡ name ++ 0 ∷ rest
  pub text : IsText name

-- A directory and its entries, the one that was made last at the front.
pub record IsDirectory (s : Vfs) (n : ℕ) (children : List ℕ) : Type 0 where
  pub node : FsNode
  pub entry : TmpfsNode
  pub has_node : get_elem? s.nodes n ≡ some node
  pub has_entry : get_elem? s.tmpfs_nodes node.fs_data ≡ some entry
  pub lists : entry.children ≡ children

readdir_loop-none :
    (s : Vfs) (children : List ℕ) (i : ℕ) (buf : List ℕ)
    → length children ≤ i
    → readdir_loop s children i buf ≡ done none
unfolding readdir_loop
readdir_loop-none s [] i buf past = refl
readdir_loop-none s (c ∷ cs) zero buf past = absurd (omega (arith, past))
readdir_loop-none s (c ∷ cs) (suc i) buf past = readdir_loop-none s cs i buf (omega (arith, past))

readdir_loop-Listed :
    (s : Vfs) (children : List ℕ) (i c : ℕ) (name old behind : List ℕ) (d : ℕ)
    → get_elem? children i ≡ some c
    → (l : IsListed s c name) → length old ≡ length name
    → readdir_loop s children i (old ++ d ∷ behind)
      ≡ done (
          some (record {
            d_name = name ++ 0 ∷ behind;
            d_type = l.node.type % 2 ^ 8;
            d_reclen = (sizeof_dirent + length name + 1) % 2 ^ 16;
          }))
unfolding readdir_loop
readdir_loop-Listed s [] i c name old behind d at l room = absurd (cc)
readdir_loop-Listed s (k ∷ cs) (suc i) c name old behind d at l room =
    readdir_loop-Listed s cs i c name old behind d at l room
readdir_loop-Listed s (k ∷ cs) zero c name old behind d at l room =
    let same : k ≡ c = cc in
    let copied = strcpy_lem name l.rest old behind l.text room d in
    rw (same, l.has_entry, l.named, copied, l.has_node, strlen-length name behind l.text)

-- `tmpfsReaddir` of a directory gives at each position below the number of entries the name, the kind and
-- the length of the entry there, with the name and its NUL in front of what the buffer held,
-- and nothing at any position past them. The buffer has room for the name.
pub tmpfs_readdir-IsListed :
    (s : Vfs) (n i : ℕ) (children old behind : List ℕ) (d : ℕ)
    → IsDirectory s n children
    → ((c : ℕ) (name : List ℕ) (l : IsListed s c name)
        → get_elem? children i ≡ some c
        → length old ≡ length name
        → tmpfs_readdir s n i (old ++ d ∷ behind)
          ≡ done (
              some (record {
                d_name = name ++ 0 ∷ behind;
                d_type = l.node.type % 2 ^ 8;
                d_reclen = (sizeof_dirent + length name + 1) % 2 ^ 16;
              })))
      × (length children ≤ i → tmpfs_readdir s n i (old ++ d ∷ behind) ≡ done none)
unfolding tmpfs_readdir readdir_loop
tmpfs_readdir-IsListed s n i children old behind d dir = (
  λ c name l at room.
      rw (dir.has_node, dir.has_entry, dir.lists)
        (readdir_loop-Listed s children i c name old behind d at l room),
  λ past.
      rw (dir.has_node, dir.has_entry, dir.lists)
        (readdir_loop-none s children i (old ++ d ∷ behind) past),
)
