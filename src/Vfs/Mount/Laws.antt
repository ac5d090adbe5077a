-- ===== src/Vfs/Mount/Laws.antt =====
-- Lookup of a path, from the root through the mounts.
use spctrx.Common.{
  ℕ, ◌<◌, ◌≡◌, List, ◌∷◌, ◌++◌, Option, some, done, hang, ◌>>=◌, arith, length, bind_eq,
}
use spctrx.Vfs.State.{Vfs}
use spctrx.Vfs.Path.{walk-resolve, walk-hang, resolve, AreNames, path_of, NoSlash}
use spctrx.Vfs.Mount.Defs.{through_mount, vfs_look, is_file, vfs_lookup}

-- A path made of names of 1 to 63 bytes, each behind a slash, is looked up name by name from the root
-- of the tree, or from the root of the file system mounted on it.
pub vfs_lookup-resolve :
    (s : Vfs) (ts : List (List ℕ))
    → AreNames ts
    → vfs_lookup s (path_of ts)
      ≡ (through_mount s (some s.root) >>= λ current. resolve (vfs_look s) (is_file s) current ts)
unfolding vfs_lookup
vfs_lookup-resolve s ts hs =
    bind_eq (through_mount s (some s.root)) _ _
      λ current. walk-resolve (vfs_look s) (is_file s) ts _ current hs (omega arith)

-- A path whose first name has more than 63 bytes never returns, provided that the root is found.
pub vfs_lookup-hang :
    (s : Vfs) (t path : List ℕ) (current : Option ℕ)
    → through_mount s (some s.root) ≡ done current
    → NoSlash t
    → 63 < length t
    → vfs_lookup s (0x2f ∷ (t ++ path)) ≡ hang
unfolding vfs_lookup
vfs_lookup-hang s t path current e h long =
    rw e (walk-hang (vfs_look s) (is_file s) t path _ current h long)
