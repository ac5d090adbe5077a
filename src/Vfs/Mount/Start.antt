-- ===== src/Vfs/Mount/Start.antt =====
-- `vfsInit`: the tree that the kernel starts with.
use spctrx.Common.{
  ℕ, arith, ◌-◌, ◌≡◌, refl, true, List, [], ◌∷◌, ◌++◌, none, some, done, length, replicate, take,
}
use spctrx.Memory.Cstring.{IsText, strncpy, strcmp, strncpy_lem}
use spctrx.Vfs.State.{Vfs, Stale, type_dir}
use spctrx.Vfs.Path.{walk}
use spctrx.Vfs.Tmpfs.{IsArray, tmpfs_mount, tmpfs_make, tmpfs_lookup, find_child}
use spctrx.Vfs.Mount.Defs.{vfs_init, vfs_mount, vfs_lookup, vfs_look, through_mount, find_mnt}
use spctrx.Vfs.Mount.Create.{IsRoot}

-- The arrays in fresh memory, for types and names and for devices and paths.
pub record AreArrays (stale : Stale) : Type 0 where
  pub names : IsArray stale
  pub front : List ℕ
  pub last : ℕ
  pub is : stale.array 65 ≡ front ++ last ∷ []
  pub sized : length front ≡ 64

module _ (stale : Stale) (a : AreArrays stale) where
  abbrev name_array : List ℕ → List ℕ
  name_array t = take 32 t ++ (replicate (32 - length t) 0 ++ a.names.last ∷ [])

  abbrev path_array : List ℕ → List ℕ
  path_array t = take 64 t ++ (replicate (64 - length t) 0 ++ a.last ∷ [])

  copy_name :
      (t : List ℕ) → IsText t → strncpy (stale.array 33) (t ++ 0 ∷ []) 32 ≡ done (name_array t)
  copy_name t h =
      rw (a.names.is, strncpy_lem t [] a.names.front (a.names.last ∷ []) 32 h a.names.sized)

  copy_path :
      (t : List ℕ) → IsText t → strncpy (stale.array 65) (t ++ 0 ∷ []) 64 ≡ done (path_array t)
  copy_path t h = rw (a.is, strncpy_lem t [] a.front (a.last ∷ []) 64 h a.sized)

  abbrev dev : List ℕ
  dev = b'd' ∷ b'e' ∷ b'v' ∷ []

  abbrev tmp : List ℕ
  tmp = b't' ∷ b'm' ∷ b'p' ∷ []

  abbrev started : Vfs
  started = record {
    nodes =
        stale.node
        ∷ record { type = type_dir; mnt = 0; fs_data = 0; has_ops = true }
        ∷ record { type = type_dir; mnt = 0; fs_data = 1; has_ops = true }
        ∷ [];
    tmpfs_nodes =
        record { name = name_array []; node = 1; children = 1 ∷ []; bytes = none }
        ∷ record { name = name_array dev; node = 2; children = []; bytes = none }
        ∷ [];
    mounts =
        record {
          type = name_array tmp;
          dev = path_array [];
          path = path_array (b'/' ∷ []);
          mountpoint = 0;
          root = some 1;
          nodes = 2 ∷ 1 ∷ [];
        }
        ∷ record {
          type = name_array dev;
          dev = path_array [];
          path = path_array (b'/' ∷ dev);
          mountpoint = 2;
          root = none;
          nodes = [];
        }
        ∷ [];
    mnts = 1 ∷ 0 ∷ [];
    root = 0;
  }

  runs : vfs_init stale ≡ done started
  unfolding vfs_init vfs_mount vfs_lookup walk vfs_look through_mount find_mnt tmpfs_mount
      tmpfs_make tmpfs_lookup find_child strcmp
  runs =
      let type₁ = copy_name tmp (
        (λ e. omega (arith, e)),
        omega arith,
        ((λ e. omega (arith, e)), omega arith, ((λ e. omega (arith, e)), omega arith, tt)),
      ) in
      let type₂ = copy_name dev (
        (λ e. omega (arith, e)),
        omega arith,
        ((λ e. omega (arith, e)), omega arith, ((λ e. omega (arith, e)), omega arith, tt)),
      ) in
      let none_given = copy_path [] tt in
      let path₁ = copy_path (b'/' ∷ []) ((λ e. omega (arith, e)), omega arith, tt) in
      let path₂ = copy_path (b'/' ∷ dev) (
        (λ e. omega (arith, e)),
        omega arith,
        (
          (λ e. omega (arith, e)),
          omega arith,
          ((λ e. omega (arith, e)), omega arith, ((λ e. omega (arith, e)), omega arith, tt)),
        ),
      ) in
      let root_name = copy_name [] tt in
      rw (type₁, none_given, path₁, root_name, type₂, type₂, none_given, path₂)

  started-IsRoot : IsRoot started 1
  unfolding through_mount find_mnt
  started-IsRoot = record {
    entry = record {
      node = record { type = type_dir; mnt = 0; fs_data = 0; has_ops = true };
      entry = record { name = name_array []; node = 1; children = 1 ∷ []; bytes = none };
      mount = record {
        type = name_array tmp;
        dev = path_array [];
        path = path_array (b'/' ∷ []);
        mountpoint = 0;
        root = some 1;
        nodes = 2 ∷ 1 ∷ [];
      };
      has_node = refl;
      has_entry = refl;
      has_mount = refl;
    };
    reached = refl;
    directory = refl;
    operated = refl;
    uncovered = refl;
  }

-- With arrays of the lengths that the structs have, `vfsInit` returns, whatever fresh memory holds. A
-- file system is then mounted on the root of the tree, and its directory is one to create files in.
pub vfs_init-IsRoot :
    (stale : Stale) → AreArrays stale → (s : Vfs) × (vfs_init stale ≡ done s) × IsRoot s 1
vfs_init-IsRoot stale a = (started stale a, runs stale a, started-IsRoot stale a)
