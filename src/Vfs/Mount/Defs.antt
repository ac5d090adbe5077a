-- ===== src/Vfs/Mount/Defs.antt =====
-- Lookup through mounts, `vfsMount`, `vfsInit`, and the operations by path of vfsops.c. A path is its
-- bytes before the NUL. The messages on the console are left out.
use spctrx.Common.{
  ℕ, ◌+◌, Bool, true, false, List, [], ◌∷◌, ◌++◌, Option, none, some, Outcome, done, fault, ◌>>=◌,
  ◌==◌, if◌then◌else◌, length, get_elem?,
}
use spctrx.Memory.Cstring.{strcmp, strncpy}
use spctrx.Vfs.State.{type_file, FsMnt, Vfs, Stale, at}
use spctrx.Vfs.Path.{walk}
use spctrx.Vfs.Tmpfs.{
  tmpfs_lookup, tmpfs_mount, tmpfs_write, tmpfs_read, tmpfs_readdir, tmpfs_create, Dirent, is_zero,
}

-- The loop of `vfsFindMnt` over the list of mounts, for a node that is not null.
unfoldable pub find_mnt : Vfs → List ℕ → ℕ → Outcome (Option FsMnt)
find_mnt s [] n = done none
find_mnt s (i ∷ is) n = do
  let rest = find_mnt s is n
  m ← at s.mounts i
  if m.mountpoint == n then done (some m) else rest

-- A node over which something is mounted stands for the root of the mount, which may be null.
unfoldable pub through_mount : Vfs → Option ℕ → Outcome (Option ℕ)
through_mount s none = done none
through_mount s (some n) =
    find_mnt s s.mnts n >>= λ found. done (elim found [ none ↦ some n | some m ↦ m.root ])

-- `vfsLook` on a node that is not null.
unfoldable pub vfs_look : Vfs → ℕ → List ℕ → Outcome (Option ℕ)
vfs_look s n name = do
  node ← at s.nodes n
  if node.type == type_file
      then done none
      else if node.has_ops
      then tmpfs_lookup s n (name ++ 0 ∷ []) >>= through_mount s
      else done none

-- The test of the type; a node that is not there is no file.
abbrev pub is_file : Vfs → ℕ → Bool
is_file s n = elim (get_elem? s.nodes n) [ none ↦ false | some node ↦ node.type == type_file ]

-- The loop has one round for each byte, one to leave it, and endless ones on a name that is too long.
unfoldable pub vfs_lookup : Vfs → List ℕ → Outcome (Option ℕ)
vfs_lookup s path = do
  current ← through_mount s (some s.root)
  walk (vfs_look s) (is_file s) (length path + 1) path current []

-- "tmp"
abbrev pub tmp_type : List ℕ
tmp_type = b't' ∷ b'm' ∷ b'p' ∷ 0 ∷ []

-- `vfsMount`; the result of the call is `false` where the path leads nowhere.
unfoldable pub vfs_mount : Stale → Vfs → List ℕ → List ℕ → List ℕ → Outcome (Bool × Vfs)
vfs_mount stale s path dev type = do
  found ← vfs_lookup s path
  elim found [
    | none ↦ done (false, s)
    | some n ↦ do
      let id = length s.mounts
      type' ← strncpy (stale.array 33) type 32
      dev' ← strncpy (stale.array 65) dev 64
      path' ← strncpy (stale.array 65) (path ++ 0 ∷ []) 64
      let mnt : FsMnt = record {
        type = type';
        dev = dev';
        path = path';
        mountpoint = n;
        root = none;
        nodes = [];
      }
      let s₁ = record s { mounts = s.mounts ++ mnt ∷ [] }
      d ← strcmp type tmp_type
      s₂ ← if is_zero d then tmpfs_mount stale s₁ id else done s₁
      done (true, record s₂ { mnts = id ∷ s₂.mnts })
  ]

-- `vfsInit` and `vfsDoMounts`: the root node keeps what its memory held.
unfoldable pub vfs_init : Stale → Outcome Vfs
vfs_init stale = do
  let s : Vfs = record {
    nodes = stale.node ∷ [];
    tmpfs_nodes = [];
    mounts = [];
    mnts = [];
    root = 0;
  }
  (mounted, s₁) ← vfs_mount stale s (b'/' ∷ []) (0 ∷ []) tmp_type
  (mounted', s₂) ←
      vfs_mount stale s₁ (b'/' ∷ b'd' ∷ b'e' ∷ b'v' ∷ []) (0 ∷ []) (b'd' ∷ b'e' ∷ b'v' ∷ 0 ∷ [])
  done s₂

-- `node->ops->f`: with a null table the read of the field is an invalid access.
abbrev with_ops : {A : Type 0} → Vfs → List ℕ → A → (ℕ → Outcome A) → Outcome A
with_ops s path otherwise call = do
  found ← vfs_lookup s path
  elim found [
    | none ↦ done otherwise
    | some n ↦ do node ← at s.nodes n; if node.has_ops then call n else fault
  ]

unfoldable pub vfs_write : Vfs → List ℕ → ℕ → List ℕ → Outcome (ℕ × Vfs)
vfs_write s path offset buf = with_ops s path (0, s) (λ n. tmpfs_write s n offset buf)

unfoldable pub vfs_read : Vfs → List ℕ → ℕ → ℕ → Outcome (ℕ × List ℕ)
vfs_read s path offset size = with_ops s path (0, []) (λ n. tmpfs_read s n offset size)

unfoldable pub vfs_read_dir : Vfs → List ℕ → ℕ → List ℕ → Outcome (Option Dirent)
vfs_read_dir s path offset buf = with_ops s path none (λ n. tmpfs_readdir s n offset buf)

-- The result is 0 in every case.
unfoldable pub vfs_create : Stale → Vfs → List ℕ → List ℕ → Outcome (ℕ × Vfs)
vfs_create stale s path name =
    with_ops s path (0, s) (λ n. tmpfs_create stale s n name >>= λ s'. done (0, s'))
