-- ===== src/Tests/Files.antt =====
-- Files and paths at small inputs.
use spctrx.Common.{
  ℕ, ◌≢◌, zero, suc, ◌+◌, ◌-◌, ◌^◌, ◌≡◌, refl, Bool, true, false, List, [], ◌∷◌, ◌++◌, Option, none,
  some, Outcome, done, fault, hang, ◌>>=◌, arith, length, get_elem?, replicate, length-replicate,
}
use spctrx.Vfs.State.{type_dir, type_file, FsNode, TmpfsNode, FsMnt, Vfs, Stale}
use spctrx.Vfs.Path.{walk, resolve, NoSlash, AreNames, path_of}
use spctrx.Vfs.Tmpfs.{
  file_size, tmpfs_lookup, tmpfs_write, IsFile, IsArray, IsEntry, tmpfs_write-refused,
  tmpfs_write-wraps,
}
use spctrx.Memory.Cstring.{IsText, strcmp}
use spctrx.Vfs.Mount.{
  vfs_init, vfs_create, vfs_write, vfs_read, root_path, IsRoot, AreArrays, vfs_read-vfs_write,
  vfs_read-vfs_create, vfs_init-IsRoot, find_mnt, through_mount, vfs_look, is_file, vfs_lookup,
  vfs_lookup-resolve, vfs_lookup-hang,
}

-- "dev" and "a"
abbrev dev : List ℕ
dev = b'd' ∷ b'e' ∷ b'v' ∷ []

abbrev names : List (List ℕ)
names = dev ∷ (b'a' ∷ []) ∷ []

names-AreNames : AreNames names
names-AreNames = (
  record {
    plain = (λ e. omega arith, (λ e. omega arith, (λ e. omega arith, tt)));
    nonempty = omega arith;
    fits = omega arith;
  },
  (record { plain = (λ e. omega arith, tt); nonempty = omega arith; fits = omega arith }, tt),
)

-- A tree in which every name leads to a node, and node 5 is a file.
abbrev look : ℕ → List ℕ → Outcome (Option ℕ)
look n name = done (some (n + length name))

abbrev five : ℕ → Bool
five (suc (suc (suc (suc (suc zero))))) = true
five n = false

-- A root directory with one file of zeros.
abbrev zeros : List ℕ
zeros = replicate file_size 0

abbrev root_node : FsNode
root_node = record { type = type_dir; mnt = 0; fs_data = 0; has_ops = true }

abbrev file_node : FsNode
file_node = record { type = type_file; mnt = 0; fs_data = 1; has_ops = true }

abbrev root_entry : TmpfsNode
root_entry = record { name = 0 ∷ []; node = 0; children = 1 ∷ []; bytes = none }

abbrev file_entry : TmpfsNode
file_entry = record { name = b'a' ∷ 0 ∷ []; node = 1; children = []; bytes = some zeros }

abbrev mount : FsMnt
mount = record {
  type = 0 ∷ [];
  dev = 0 ∷ [];
  path = 0 ∷ [];
  mountpoint = 0;
  root = some 0;
  nodes = 1 ∷ 0 ∷ [];
}

abbrev tree : Vfs
tree = record {
  nodes = root_node ∷ file_node ∷ [];
  tmpfs_nodes = root_entry ∷ file_entry ∷ [];
  mounts = mount ∷ [];
  mnts = 0 ∷ [];
  root = 0;
}

abbrev tree-IsFile : IsFile tree 1 zeros
tree-IsFile = record {
  node = file_node;
  entry = file_entry;
  has_node = refl;
  is_file = refl;
  has_entry = refl;
  has_bytes = refl;
  whole = length-replicate {A = ℕ} file_size 0;
}

tmpfs_write-refused_example : tmpfs_write tree 1 8189 dev ≡ done (0, tree)
tmpfs_write-refused_example =
    tmpfs_write-refused tree 1 8189 dev zeros tree-IsFile (omega arith) (omega arith)

tmpfs_write-wraps_example : tmpfs_write tree 1 (2 ^ 64 - 1) dev ≡ fault
tmpfs_write-wraps_example =
    tmpfs_write-wraps tree 1 (2 ^ 64 - 1) dev zeros tree-IsFile (omega arith) (omega arith)
      (omega arith) (omega arith)

-- Memory that was all sevens.
abbrev stale : Stale
stale = record {
  array = λ n. replicate n 7;
  node = record { type = 7; mnt = 7; fs_data = 7; has_ops = false };
}

stale-IsArray : IsArray stale
stale-IsArray = record { front = replicate 32 7; last = 7; is = refl; sized = refl }

abbrev root-IsEntry : IsEntry tree 0
root-IsEntry = record {
  node = root_node;
  entry = root_entry;
  mount = mount;
  has_node = refl;
  has_entry = refl;
  has_mount = refl;
}

vfs_lookup-resolve_example : vfs_lookup tree (path_of names) ≡ (
    through_mount tree (some 0) >>= λ current. resolve (vfs_look tree) (is_file tree) current names)
vfs_lookup-resolve_example = vfs_lookup-resolve tree names names-AreNames

-- A name of 64 bytes.
NoSlash-replicate : (n : ℕ) → NoSlash (replicate n b'a')
NoSlash-replicate zero = tt
NoSlash-replicate (suc n) = (λ e. omega arith, NoSlash-replicate n)

vfs_lookup-hang_example : vfs_lookup tree (0x2f ∷ (replicate 64 b'a' ++ dev)) ≡ hang
unfolding through_mount find_mnt
vfs_lookup-hang_example =
    vfs_lookup-hang tree (replicate 64 b'a') dev (some 0) refl (NoSlash-replicate 64) (omega arith)

vfs_read-vfs_write_example :
    (s' : Vfs) × (vfs_write tree (path_of ((b'a' ∷ []) ∷ [])) 100 dev ≡ done (length dev, s'))
    × (vfs_read s' (path_of ((b'a' ∷ []) ∷ [])) 100 (length dev) ≡ done (length dev, dev))
    × ((other : List ℕ) → vfs_lookup s' other ≡ vfs_lookup tree other)
    × ((other : List ℕ) (m at_byte size : ℕ) (node : FsNode)
        → vfs_lookup tree other ≡ done (some m)
        → get_elem? tree.nodes m ≡ some node
        → node.fs_data ≢ 1
        → vfs_read s' other at_byte size ≡ vfs_read tree other at_byte size)
unfolding vfs_lookup walk through_mount find_mnt vfs_look tmpfs_lookup strcmp
vfs_read-vfs_write_example =
    vfs_read-vfs_write tree (path_of ((b'a' ∷ []) ∷ [])) 1 100 dev zeros tree-IsFile refl refl
      (omega arith) (omega arith)

tree-IsRoot : IsRoot tree 0
unfolding through_mount find_mnt
tree-IsRoot = record {
  entry = root-IsEntry;
  reached = refl;
  directory = refl;
  operated = refl;
  uncovered = refl;
}

dev-IsText : IsText dev
dev-IsText = (
  λ e. omega arith,
  omega arith,
  (λ e. omega arith, omega arith, (λ e. omega arith, omega arith, tt)),
)

vfs_read-vfs_create_example :
    (s₁ : Vfs) × (s₂ : Vfs) × (vfs_create stale tree root_path (dev ++ 0 ∷ []) ≡ done (0, s₁))
    × (vfs_write s₁ (path_of (dev ∷ [])) 100 dev ≡ done (length dev, s₂))
    × (vfs_read s₂ (path_of (dev ∷ [])) 0 103 ≡ done (103, replicate 100 0 ++ dev))
vfs_read-vfs_create_example =
    vfs_read-vfs_create stale tree 0 dev 100 dev tree-IsRoot stale-IsArray dev-IsText
      names-AreNames.0 (omega arith) (omega arith) (omega arith)

stale-AreArrays : AreArrays stale
stale-AreArrays = record {
  names = stale-IsArray;
  front = replicate 64 7;
  last = 7;
  is = refl;
  sized = refl;
}

vfs_init-IsRoot_example : (s : Vfs) × (vfs_init stale ≡ done s) × IsRoot s 1
vfs_init-IsRoot_example = vfs_init-IsRoot stale stale-AreArrays
