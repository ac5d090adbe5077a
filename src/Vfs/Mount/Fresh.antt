-- ===== src/Vfs/Mount/Fresh.antt =====
-- A file from its creation to a read.
use spctrx.Common.{
  ℕ, zero, suc, ◌+◌, ◌<◌, ◌≤◌, ◌≡◌, refl, sym, ap, List, [], ◌∷◌, ◌++◌, done, arith, length,
  replicate, take, drop, length-append, length-replicate, take-append,
}
use mathlib.Core.List.{append_assoc}
use spctrx.Memory.Cstring.{IsText}
use spctrx.Vfs.State.{Vfs, Stale}
use spctrx.Vfs.Path.{IsName, path_of}
use spctrx.Vfs.Tmpfs.{file_size, IsArray, with_bytes, splice, tmpfs_write-splice, tmpfs_read-take}
use spctrx.Vfs.Mount.Defs.{vfs_create, vfs_write, vfs_read}
use spctrx.Vfs.Mount.Bytes.{vfs_lookup-after}
use spctrx.Vfs.Mount.Create.{root_path, IsRoot, vfs_create-vfs_lookup}

take-replicate : (n m : ℕ) → n ≤ m → take n (replicate {A = ℕ} m 0) ≡ replicate n 0
take-replicate zero m h = refl
take-replicate (suc n) zero h = absurd (omega (arith, h))
take-replicate (suc n) (suc m) h = ap (λ xs. 0 ∷ xs) (take-replicate n m (omega (arith, h)))

-- The front of zeros that were written over.
take-written :
    (n offset : ℕ) (buf : List ℕ)
    → offset ≤ n
    → take (offset + length buf) (splice (replicate n 0) offset buf) ≡ replicate offset 0 ++ buf
take-written n offset buf h =
    let rest = drop (offset + length buf) (replicate {A = ℕ} n 0) in
    rw (take-replicate offset n h, sym (append_assoc (replicate offset 0) buf rest))
      (take-append (offset + length buf) (replicate offset 0 ++ buf) rest (
        omega (
          arith,
          length-append (replicate {A = ℕ} offset 0) buf,
          length-replicate {A = ℕ} offset 0,
        )))

-- `vfsCreate` of a name of 1 to 31 bytes in the root directory, `vfsWrite` to its path, of at least one byte that
-- ends before the last byte of a file's pages, and `vfsRead` from the start to the end of what was
-- written all succeed; the read gives zeros up to the offset, and then the bytes.
pub vfs_read-vfs_create :
    (stale : Stale) (s : Vfs) (n : ℕ) (name : List ℕ) (offset : ℕ) (buf : List ℕ)
    → IsRoot s n
    → IsArray stale
    → IsText name
    → IsName name
    → length name ≤ 31
    → 0 < length buf
    → offset + length buf < file_size
    → (s₁ : Vfs) × (s₂ : Vfs) × (vfs_create stale s root_path (name ++ 0 ∷ []) ≡ done (0, s₁))
      × (vfs_write s₁ (path_of (name ∷ [])) offset buf ≡ done (length buf, s₂))
      × (vfs_read s₂ (path_of (name ∷ [])) 0 (offset + length buf)
          ≡ done (offset + length buf, replicate offset 0 ++ buf))
unfolding vfs_write vfs_read
vfs_read-vfs_create stale s n name offset buf r a h plain fits pos inside =
    let zeros = replicate {A = ℕ} file_size 0 in
    let (s₁, run, leads, f, ops) = vfs_create-vfs_lookup stale s n name r a h plain fits in
    let (writes, f') = tmpfs_write-splice s₁ (length s.nodes) offset buf zeros f pos inside in
    let s₂ = with_bytes s₁ f (splice zeros offset buf) in
    let same =
      vfs_lookup-after s₁ (length s.nodes) zeros (splice zeros offset buf) f
        (path_of (name ∷ [])) in
    let reads =
      tmpfs_read-take s₂ (length s.nodes) 0 (offset + length buf) (splice zeros offset buf) f'
        (omega arith) (omega arith) in
    (
      s₁,
      s₂,
      run,
      rw (leads, f.has_node, ops, writes),
      rw (same, leads, f.has_node, ops, reads)
          (ap (λ bytes. done (offset + length buf, bytes))
            (take-written file_size offset buf (omega arith))),
    )
