-- ===== src/Vfs/Tmpfs/Names.antt =====
-- A node that is created in a directory is found there under its name.
use spctrx.Common.{
  ℕ, zero, suc, ◌-◌, ◌<◌, ◌≤◌, ◌≡◌, refl, ap, ◌∙◌, List, [], ◌∷◌, ◌++◌, some, done, arith, length,
  get_elem?, set, take, replicate, get_elem?-set_self, get_elem?-set_ne, get_elem?-lt,
  get_elem?-append_last, get_elem?-append_old, length-append, ◌==◌, if◌then◌else◌, none, true,
}
use spctrx.Common.Int.{pos}
use spctrx.Memory.Cstring.{IsText, strcmp, strcmp-eq, strncpy, strncpy_lem}
use spctrx.Vfs.State.{type_file, FsNode, TmpfsNode, FsMnt, Vfs, Stale}
use spctrx.Vfs.Tmpfs.Defs.{tmpfs_make, tmpfs_lookup, file_size}

take-all : (n : ℕ) (xs : List ℕ) → length xs ≤ n → take n xs ≡ xs
take-all zero [] h = refl
take-all zero (x ∷ xs) h = absurd (omega arith)
take-all (suc n) [] h = refl
take-all (suc n) (x ∷ xs) h = ap (λ r. x ∷ r) (take-all n xs (omega arith))

replicate-pos : (n : ℕ) → 0 < n → replicate {A = ℕ} n 0 ≡ 0 ∷ replicate (n - 1) 0
replicate-pos zero h = absurd (omega arith)
replicate-pos (suc n) h = let e : suc n - 1 ≡ n = omega arith in rw e

-- Node `n` has an entry of the file system, and its mount exists.
pub record IsEntry (s : Vfs) (n : ℕ) : Type 0 where
  pub node : FsNode
  pub entry : TmpfsNode
  pub mount : FsMnt
  pub has_node : get_elem? s.nodes n ≡ some node
  pub has_entry : get_elem? s.tmpfs_nodes node.fs_data ≡ some entry
  pub has_mount : get_elem? s.mounts node.mnt ≡ some mount

-- The array for a name in fresh memory: 32 bytes that the copy writes, and one that it does not.
pub record IsArray (stale : Stale) : Type 0 where
  pub front : List ℕ
  pub last : ℕ
  pub is : stale.array 33 ≡ front ++ last ∷ []
  pub sized : length front ≡ 32

module _ (stale : Stale) (a : IsArray stale) (name : List ℕ) (h : IsText name)
    (fits : length name ≤ 31) where
  abbrev stored : List ℕ
  stored = name ++ 0 ∷ (replicate (32 - length name - 1) 0 ++ a.last ∷ [])

  strncpy-stored : strncpy (stale.array 33) (name ++ 0 ∷ []) 32 ≡ done stored
  strncpy-stored = rw (
    a.is,
    strncpy_lem name [] a.front (a.last ∷ []) 32 h a.sized,
    take-all 32 name (omega arith),
    replicate-pos (32 - length name) (omega arith),
  )

  module _ (s : Vfs) (n type : ℕ) (e : IsEntry s n) where
    abbrev id : ℕ
    id = length s.nodes

    abbrev child : TmpfsNode
    child = record {
      name = stored;
      node = id;
      children = [];
      bytes = if type == type_file then some (replicate file_size 0) else none;
    }

    abbrev new_node : FsNode
    new_node = record {
      type = type;
      mnt = e.node.mnt;
      fs_data = length s.tmpfs_nodes;
      has_ops = true;
    }

    abbrev entry' : TmpfsNode
    entry' = record e.entry { children = length s.tmpfs_nodes ∷ e.entry.children }

    abbrev after : Vfs
    after = record s {
      nodes =
          set (s.nodes ++ (let node : FsNode = stale.node in record node { mnt = e.node.mnt }) ∷ [])
            id new_node;
      mounts = set s.mounts e.node.mnt (record e.mount { nodes = id ∷ e.mount.nodes });
      tmpfs_nodes = set (s.tmpfs_nodes ++ child ∷ []) e.node.fs_data entry';
    }

    abbrev slot : FsNode
    slot = let node : FsNode = stale.node in record node { mnt = e.node.mnt }

    n-lt : n < id
    n-lt = get_elem?-lt s.nodes n e.has_node

    entry-lt : e.node.fs_data < length s.tmpfs_nodes
    entry-lt = get_elem?-lt s.tmpfs_nodes e.node.fs_data e.has_entry

    old_node : get_elem? after.nodes n ≡ some e.node
    old_node =
        get_elem?-set_ne (s.nodes ++ slot ∷ []) id n new_node (omega (arith, n-lt))
        ∙ get_elem?-append_old s.nodes (slot ∷ []) n n-lt
        ∙ e.has_node

    child_node : get_elem? after.nodes id ≡ some new_node
    child_node =
        get_elem?-set_self (s.nodes ++ slot ∷ []) id new_node
          (omega (arith, length-append s.nodes (slot ∷ [])))

    old_entry : get_elem? (s.tmpfs_nodes ++ child ∷ []) e.node.fs_data ≡ some e.entry
    old_entry =
        get_elem?-append_old s.tmpfs_nodes (child ∷ []) e.node.fs_data entry-lt ∙ e.has_entry

    tmpfs_make-after : tmpfs_make stale s n (name ++ 0 ∷ []) type ≡ done after
    unfolding tmpfs_make
    tmpfs_make-after = rw (e.has_node, e.has_mount, strncpy-stored, old_node, old_entry, child_node)

    new_entry : get_elem? after.tmpfs_nodes e.node.fs_data ≡ some entry'
    new_entry =
        get_elem?-set_self (s.tmpfs_nodes ++ child ∷ []) e.node.fs_data entry'
          (omega (arith, length-append s.tmpfs_nodes (child ∷ []), entry-lt))

    child_entry : get_elem? after.tmpfs_nodes (length s.tmpfs_nodes) ≡ some child
    child_entry =
        get_elem?-set_ne (s.tmpfs_nodes ++ child ∷ []) e.node.fs_data (length s.tmpfs_nodes) entry'
          (omega (arith, entry-lt))
        ∙ get_elem?-append_last s.tmpfs_nodes child

    same_name : (rest : List ℕ) → strcmp stored (name ++ 0 ∷ rest) ≡ done (pos 0)
    same_name rest =
        let (d, run, iff) =
          strcmp-eq name name (replicate (32 - length name - 1) 0 ++ a.last ∷ []) rest h h in
        run ∙ ap done (iff.1 refl)

    lookup-after : (rest : List ℕ) → tmpfs_lookup after n (name ++ 0 ∷ rest) ≡ done (some id)
    unfolding tmpfs_lookup
    lookup-after rest = rw (old_node, new_entry, child_entry, same_name rest)

-- `tmpfsCreate` and `tmpfsMkdir` of a name of at most 31 bytes, in a node that has an entry, return;
-- `tmpfsLookup` of that name there then gives the new node, which has the type asked for.
pub tmpfs_lookup-tmpfs_make :
    (stale : Stale) (s : Vfs) (n type : ℕ) (name rest : List ℕ)
    → IsArray stale
    → IsText name
    → length name ≤ 31
    → IsEntry s n
    → (s' : Vfs) × (tmpfs_make stale s n (name ++ 0 ∷ []) type ≡ done s')
      × (tmpfs_lookup s' n (name ++ 0 ∷ rest) ≡ done (some (length s.nodes)))
      × (node : FsNode) × (get_elem? s'.nodes (length s.nodes) ≡ some node)
      × (node.type ≡ type)
tmpfs_lookup-tmpfs_make stale s n type name rest a h fits e = (
  after stale a name h fits s n type e,
  tmpfs_make-after stale a name h fits s n type e,
  lookup-after stale a name h fits s n type e rest,
  new_node stale a name h fits s n type e,
  child_node stale a name h fits s n type e,
  refl,
)

-- What a creation leaves: a new node, found in its directory, and mounts that are as they were but for
-- their lists of nodes.
pub record Made (s : Vfs) (n type : ℕ) (name : List ℕ) (e : IsEntry s n) (s' : Vfs) : Type 0 where
  pub same_root : s'.root ≡ s.root
  pub same_mnts : s'.mnts ≡ s.mnts
  pub mounts :
      s'.mounts
      ≡ set s.mounts e.node.mnt (record e.mount { nodes = length s.nodes ∷ e.mount.nodes })
  pub directory : get_elem? s'.nodes n ≡ some e.node
  pub found : tmpfs_lookup s' n (name ++ 0 ∷ []) ≡ done (some (length s.nodes))
  pub made : FsNode
  pub has_made : get_elem? s'.nodes (length s.nodes) ≡ some made
  pub typed : made.type ≡ type
  pub operated : made.has_ops ≡ true
  pub entry : TmpfsNode
  pub has_entry : get_elem? s'.tmpfs_nodes made.fs_data ≡ some entry
  pub zeros : entry.bytes ≡ (if type == type_file then some (replicate file_size 0) else none)

pub tmpfs_make-Made :
    (stale : Stale) (s : Vfs) (n type : ℕ) (name : List ℕ) (e : IsEntry s n)
    → IsArray stale
    → IsText name
    → length name ≤ 31
    → (s' : Vfs) × (tmpfs_make stale s n (name ++ 0 ∷ []) type ≡ done s') × Made s n type name e s'
tmpfs_make-Made stale s n type name e a h fits = (
  after stale a name h fits s n type e,
  tmpfs_make-after stale a name h fits s n type e,
  record {
    same_root = refl;
    same_mnts = refl;
    mounts = refl;
    directory = old_node stale a name h fits s n type e;
    found = lookup-after stale a name h fits s n type e [];
    made = new_node stale a name h fits s n type e;
    has_made = child_node stale a name h fits s n type e;
    typed = refl;
    operated = refl;
    entry = child stale a name h fits s n type e;
    has_entry = child_entry stale a name h fits s n type e;
    zeros = refl;
  },
)
