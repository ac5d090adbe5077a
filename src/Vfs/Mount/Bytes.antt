-- ===== src/Vfs/Mount/Bytes.antt =====
-- Reads and writes by path: a write changes no lookup.
use spctrx.Common.{
  ◌++◌, bind_eq, ◌⊎◌, ℕ, ◌+◌, ◌<◌, ◌≡◌, ◌≢◌, refl, sym, ap, ◌∙◌, true, inl, inr, List, [], ◌∷◌,
  Option, none, some, done, ◌>>=◌, arith, length, get_elem?, get_elem?-set_self, get_elem?-set_ne,
  get_elem?-lt, ◌==◌, Bool-cases,
}
use mathlib.Core.Path.{fun_ext}
use spctrx.Vfs.State.{FsNode, TmpfsNode, Vfs, at}
use spctrx.Vfs.Tmpfs.{
  file_size, tmpfs_read, tmpfs_lookup, find_child, IsFile, with_bytes, splice, tmpfs_write-splice,
  tmpfs_read-take, take-splice,
}
use spctrx.Vfs.Mount.Defs.{vfs_look, through_mount, vfs_lookup, vfs_write, vfs_read, find_mnt}

module _ (s : Vfs) (n : ℕ) (content bytes : List ℕ) (f : IsFile s n content) where
  abbrev after : Vfs
  after = with_bytes s f bytes

  abbrev changed : TmpfsNode
  changed = record f.entry { bytes = some bytes }

  -- Every entry but for its bytes.
  entry_cases :
      (c : ℕ)
      → (get_elem? after.tmpfs_nodes c ≡ get_elem? s.tmpfs_nodes c)
        ⊎ ((get_elem? after.tmpfs_nodes c ≡ some changed)
            × (get_elem? s.tmpfs_nodes c ≡ some f.entry))
  entry_cases c = elim (Bool-cases (f.node.fs_data == c)) [
    | inl same ↦
        let e : f.node.fs_data ≡ c = ground arith in
        let changes : get_elem? after.tmpfs_nodes f.node.fs_data ≡ some changed =
          get_elem?-set_self s.tmpfs_nodes f.node.fs_data changed
            (get_elem?-lt s.tmpfs_nodes f.node.fs_data f.has_entry) in
        inr (
          ap (get_elem? after.tmpfs_nodes) (sym e) ∙ changes,
          ap (get_elem? s.tmpfs_nodes) (sym e) ∙ f.has_entry,
        )
    | inr other ↦ inl (get_elem?-set_ne s.tmpfs_nodes f.node.fs_data c _ (λ e. ground arith))
  ]

  find_child-after : (cs name : List ℕ) → find_child after cs name ≡ find_child s cs name
  unfolding find_child
  find_child-after [] name = refl
  find_child-after (c ∷ cs) name = elim (entry_cases c) [
    | inl same ↦ rw (same, find_child-after cs name)
    | inr (new, old) ↦ rw (new, old, find_child-after cs name)
  ]

  tmpfs_lookup-after : (m : ℕ) (name : List ℕ) → tmpfs_lookup after m name ≡ tmpfs_lookup s m name
  unfolding tmpfs_lookup find_child
  tmpfs_lookup-after m name = bind_eq (at s.nodes m) _ _ λ node. elim (entry_cases node.fs_data) [
    | inl same ↦
        rw same (bind_eq (at s.tmpfs_nodes node.fs_data) _ _ λ t. find_child-after t.children name)
    | inr (new, old) ↦ rw (new, old) (find_child-after f.entry.children name)
  ]

  find_mnt-after : (is : List ℕ) (m : ℕ) → find_mnt after is m ≡ find_mnt s is m
  unfolding find_mnt
  find_mnt-after [] m = refl
  find_mnt-after (i ∷ is) m = rw (find_mnt-after is m)

  through-after : (current : Option ℕ) → through_mount after current ≡ through_mount s current
  unfolding through_mount
  through-after none = refl
  through-after (some m) = rw (find_mnt-after s.mnts m)

  look-after : vfs_look after ≡ vfs_look s
  unfolding vfs_look
  look-after = fun_ext (λ m. fun_ext (λ name. bind_eq (at s.nodes m) _ _ λ node.
      let e : (tmpfs_lookup after m (name ++ 0 ∷ []) >>= through_mount after)
          ≡ (tmpfs_lookup s m (name ++ 0 ∷ []) >>= through_mount s) =
        rw (tmpfs_lookup-after m (name ++ 0 ∷ [])) (
          bind_eq (tmpfs_lookup s m (name ++ 0 ∷ [])) (through_mount after) (through_mount s)
            through-after) in
      rw e))

  pub vfs_lookup-after : (path : List ℕ) → vfs_lookup after path ≡ vfs_lookup s path
  unfolding vfs_lookup
  vfs_lookup-after path = rw (through-after (some s.root), look-after)

  -- A read through a node with another entry is the same.
  tmpfs_read-after :
      (m offset size : ℕ) (node : FsNode)
      → get_elem? s.nodes m ≡ some node
      → node.fs_data ≢ f.node.fs_data
      → tmpfs_read after m offset size ≡ tmpfs_read s m offset size
  unfolding tmpfs_read
  tmpfs_read-after m offset size node has ne =
      let same =
        get_elem?-set_ne s.tmpfs_nodes f.node.fs_data node.fs_data changed (λ e. ne (sym e)) in
      rw (has, same)

-- A path that leads to a file: `vfsWrite` of at least one byte that ends before the last byte of the
-- file's pages returns their number, and then `vfsRead` of the same path and place gives them
-- back. Every path leads to where it led before, and a read of a path that leads to a node with another
-- entry is the same.
pub vfs_read-vfs_write :
    (s : Vfs) (path : List ℕ) (n offset : ℕ) (buf content : List ℕ) (f : IsFile s n content)
    → vfs_lookup s path ≡ done (some n)
    → f.node.has_ops ≡ true
    → 0 < length buf
    → offset + length buf < file_size
    → (s' : Vfs) × (vfs_write s path offset buf ≡ done (length buf, s'))
      × (vfs_read s' path offset (length buf) ≡ done (length buf, buf))
      × ((other : List ℕ) → vfs_lookup s' other ≡ vfs_lookup s other)
      × ((other : List ℕ) (m at_byte size : ℕ) (node : FsNode)
          → vfs_lookup s other ≡ done (some m)
          → get_elem? s.nodes m ≡ some node
          → node.fs_data ≢ f.node.fs_data
          → vfs_read s' other at_byte size ≡ vfs_read s other at_byte size)
unfolding vfs_write vfs_read
vfs_read-vfs_write s path n offset buf content f found ops pos fits =
    let bytes = splice content offset buf in
    let s' = with_bytes s f bytes in
    let (run, f') = tmpfs_write-splice s n offset buf content f pos fits in
    let back = tmpfs_read-take s' n offset (length buf) bytes f' pos fits in
    let same = vfs_lookup-after s n content bytes f in
    (
      s',
      rw (found, f.has_node, ops, run),
      rw (same path, found, f.has_node, ops, back)
          (ap (λ b. done (length buf, b))
            (take-splice content offset buf (omega (arith, f.whole)))),
      same,
      λ other m at_byte size node leads has ne.
          let keeps = tmpfs_read-after s n content bytes f m at_byte size node has ne in
          rw (same other, leads, has, keeps),
    )
