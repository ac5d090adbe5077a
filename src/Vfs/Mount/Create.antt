-- ===== src/Vfs/Mount/Create.antt =====
-- A file that is created in the root directory, by its path.
use spctrx.Common.{
  ℕ, ◌≤◌, ◌≡◌, refl, sym, ap, ◌∙◌, true, inl, inr, List, [], ◌∷◌, ◌++◌, Option, none, some, Outcome,
  done, ◌>>=◌, arith, length, get_elem?, set, replicate, get_elem?-set_self, get_elem?-set_ne,
  get_elem?-lt, ◌==◌, if◌then◌else◌, Bool-cases, length-replicate, from_some,
}
use spctrx.Memory.Cstring.{IsText}
use spctrx.Vfs.State.{FsMnt, Vfs, Stale, type_dir, type_file}
use spctrx.Vfs.Path.{walk, IsName, path_of}
use spctrx.Vfs.Tmpfs.{file_size, IsEntry, IsArray, Made, tmpfs_make-Made, IsFile}
use spctrx.Vfs.Mount.Defs.{vfs_look, through_mount, vfs_lookup, vfs_create, find_mnt}
use spctrx.Vfs.Mount.Laws.{vfs_lookup-resolve}

-- The path of the root.
abbrev pub root_path : List ℕ
root_path = 0x2f ∷ []

root_lookup :
    (s : Vfs) (n : ℕ)
    → through_mount s (some s.root) ≡ done (some n)
    → vfs_lookup s root_path ≡ done (some n)
unfolding vfs_lookup walk
root_lookup s n e = rw e

-- Mounts that differ in the lists of nodes only.
module _ (s s' : Vfs) (k : ℕ) (m : FsMnt) (nodes : List ℕ)
    (has_mount : get_elem? s.mounts k ≡ some m)
    (mounts : s'.mounts ≡ set s.mounts k (record m { nodes = nodes })) where
  -- The root that is mounted over a node, or the node.
  abbrev over : ℕ → Option FsMnt → Outcome (Option ℕ)
  over n found = done (elim found [ none ↦ some n | some mnt ↦ mnt.root ])

  abbrev round : Vfs → List ℕ → ℕ → Option FsMnt → Outcome (Option FsMnt)
  round v is n o =
      from_some o >>= λ mnt. if mnt.mountpoint == n then done (some mnt) else find_mnt v is n

  round_same :
      (is : List ℕ) (n : ℕ) (o : Option FsMnt)
      → (find_mnt s' is n >>= over n) ≡ (find_mnt s is n >>= over n)
      → (round s' is n o >>= over n) ≡ (round s is n o >>= over n)
  round_same is n none rest = refl
  round_same is n (some mnt) rest = elim (Bool-cases (mnt.mountpoint == n)) [
    | inl here ↦ rw here
    | inr other ↦ rw other rest
  ]

  mounted_same :
      (is : List ℕ) (n : ℕ) → (find_mnt s' is n >>= over n) ≡ (find_mnt s is n >>= over n)
  unfolding find_mnt
  mounted_same [] n = refl
  mounted_same (i ∷ is) n = elim (Bool-cases (k == i)) [
    | inl here ↦
        let e : k ≡ i = ground arith in
        let changed : get_elem? s'.mounts k ≡ some (record m { nodes = nodes }) = rw mounts (
          get_elem?-set_self s.mounts k (record m { nodes = nodes })
            (get_elem?-lt s.mounts k has_mount)) in
        let new = ap (get_elem? s'.mounts) (sym e) ∙ changed in
        let old = ap (get_elem? s.mounts) (sym e) ∙ has_mount in
        elim (Bool-cases (m.mountpoint == n)) [
          | inl over_n ↦ rw (new, old, over_n)
          | inr past ↦ rw (new, old, past) (mounted_same is n)
        ]
    | inr other ↦
        let same : get_elem? s'.mounts i ≡ get_elem? s.mounts i =
          rw mounts
            (get_elem?-set_ne s.mounts k i (record m { nodes = nodes }) (λ e. ground arith)) in
        rw same (round_same is n (get_elem? s.mounts i) (mounted_same is n))
  ]

  through_same : s'.mnts ≡ s.mnts → (n : ℕ) → through_mount s' (some n) ≡ through_mount s (some n)
  unfolding through_mount find_mnt
  through_same same n = rw same (mounted_same s.mnts n)

-- A directory over which the root of the tree stands, with nothing mounted on the node that comes next.
pub record IsRoot (s : Vfs) (n : ℕ) : Type 0 where
  pub entry : IsEntry s n
  pub reached : through_mount s (some s.root) ≡ done (some n)
  pub directory : entry.node.type ≡ type_dir
  pub operated : entry.node.has_ops ≡ true
  pub uncovered : find_mnt s s.mnts (length s.nodes) ≡ done none

module _ (s : Vfs) (n : ℕ) (name : List ℕ) (r : IsRoot s n) (s' : Vfs)
    (m : Made s n type_file name r.entry s') where
  through-made : (v : ℕ) → through_mount s' (some v) ≡ through_mount s (some v)
  through-made v =
      through_same s s' r.entry.node.mnt r.entry.mount (length s.nodes ∷ r.entry.mount.nodes)
        r.entry.has_mount m.mounts m.same_mnts v

  new_uncovered : through_mount s (some (length s.nodes)) ≡ done (some (length s.nodes))
  unfolding through_mount
  new_uncovered = rw r.uncovered

  look-made : vfs_look s' n name ≡ done (some (length s.nodes))
  unfolding vfs_look
  look-made =
      rw (
        m.directory,
        r.directory,
        r.operated,
        m.found,
        through-made (length s.nodes),
        new_uncovered,
      )

  lookup-made : IsName name → vfs_lookup s' (path_of (name ∷ [])) ≡ done (some (length s.nodes))
  lookup-made h =
      let resolved = vfs_lookup-resolve s' (name ∷ []) (h, tt) in
      let start =
        ap (λ (v : ℕ). through_mount s' (some v)) m.same_root ∙ (through-made s.root ∙ r.reached) in
      rw (resolved, start) look-made

  made-IsFile : IsFile s' (length s.nodes) (replicate file_size 0)
  made-IsFile = record {
    node = m.made;
    entry = m.entry;
    has_node = m.has_made;
    is_file = m.typed;
    has_entry = m.has_entry;
    has_bytes = m.zeros;
    whole = length-replicate {A = ℕ} file_size 0;
  }

-- `vfsCreate` of a name of 1 to 31 bytes in the root directory returns 0, and the path of a slash and the
-- name then leads to a new file, whose pages are zero.
pub vfs_create-vfs_lookup :
    (stale : Stale) (s : Vfs) (n : ℕ) (name : List ℕ) (r : IsRoot s n)
    → IsArray stale
    → IsText name
    → IsName name
    → length name ≤ 31
    → (s' : Vfs) × (vfs_create stale s root_path (name ++ 0 ∷ []) ≡ done (0, s'))
      × (vfs_lookup s' (path_of (name ∷ [])) ≡ done (some (length s.nodes)))
      × (f : IsFile s' (length s.nodes) (replicate file_size 0)) × (f.node.has_ops ≡ true)
unfolding vfs_create made-IsFile
vfs_create-vfs_lookup stale s n name r a h plain fits =
    let (s', run, m) = tmpfs_make-Made stale s n type_file name r.entry a h fits in
    (
      s',
      rw (root_lookup s n r.reached, r.entry.has_node, r.operated, run),
      lookup-made s n name r s' m plain,
      made-IsFile s n name r s' m,
      m.operated,
    )
