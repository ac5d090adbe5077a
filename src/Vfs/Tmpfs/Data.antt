-- ===== src/Vfs/Tmpfs/Data.antt =====
-- The bytes of a file: writes, reads and their bounds.
use spctrx.Common.{
  ℕ, ◌+◌, ◌^◌, ◌<◌, ◌≤◌, ◌≡◌, refl, ap, ◌∙◌, true, false, List, ◌++◌, some, done, fault, arith, ltb,
  leb, length, get_elem?, set, take, drop, length-take, length-drop, length-append, take-append,
  drop-append, get_elem?-set_self, get_elem?-lt, lt→ltb,
}
use spctrx.Common.Words.{u64}
use spctrx.Vfs.State.{type_file, FsNode, TmpfsNode, Vfs}
use spctrx.Vfs.Tmpfs.Defs.{file_size, copy_in, copy_out, tmpfs_write, tmpfs_read}

-- Node `n` is a file whose pages hold `content`.
pub record IsFile (s : Vfs) (n : ℕ) (content : List ℕ) : Type 0 where
  pub node : FsNode
  pub entry : TmpfsNode
  pub has_node : get_elem? s.nodes n ≡ some node
  pub is_file : node.type ≡ type_file
  pub has_entry : get_elem? s.tmpfs_nodes node.fs_data ≡ some entry
  pub has_bytes : entry.bytes ≡ some content
  pub whole : length content ≡ file_size

-- `content` with `buf` written over it from `offset` on.
abbrev pub splice : List ℕ → ℕ → List ℕ → List ℕ
splice content offset buf = take offset content ++ (buf ++ drop (offset + length buf) content)

length-splice :
    (content : List ℕ) (offset : ℕ) (buf : List ℕ)
    → offset + length buf ≤ length content
    → length (splice content offset buf) ≡ length content
length-splice content offset buf h = omega (
  arith,
  length-append (take offset content) (buf ++ drop (offset + length buf) content),
  length-append buf (drop (offset + length buf) content),
  length-take offset content (omega arith),
  length-drop (offset + length buf) content,
)

pub take-splice :
    (content : List ℕ) (offset : ℕ) (buf : List ℕ)
    → offset + length buf ≤ length content
    → take (length buf) (drop offset (splice content offset buf)) ≡ buf
take-splice content offset buf h =
    rw
      (drop-append offset (take offset content) (buf ++ drop (offset + length buf) content)
        (length-take offset content (omega arith)))
      (take-append (length buf) buf (drop (offset + length buf) content) refl)

-- The state with the bytes of a file replaced.
abbrev pub with_bytes : (s : Vfs) {n : ℕ} {content : List ℕ} → IsFile s n content → List ℕ → Vfs
with_bytes s f bytes = record s {
  tmpfs_nodes = set s.tmpfs_nodes f.node.fs_data (record f.entry { bytes = some bytes });
}

pub with_bytes-IsFile :
    (s : Vfs) (n : ℕ) (content bytes : List ℕ) (f : IsFile s n content)
    → length bytes ≡ file_size
    → IsFile (with_bytes s f bytes) n bytes
with_bytes-IsFile s n content bytes f sized =
    let t' : TmpfsNode = record f.entry { bytes = some bytes } in
    record {
      node = f.node;
      entry = t';
      has_node = f.has_node;
      is_file = f.is_file;
      has_entry =
          get_elem?-set_self s.tmpfs_nodes f.node.fs_data t'
            (get_elem?-lt s.tmpfs_nodes f.node.fs_data f.has_entry);
      has_bytes = refl;
      whole = sized;
    }

-- A write to a file of at least one byte that ends before the last byte of the two pages stores the bytes there
-- and nothing else, and returns their number.
pub tmpfs_write-splice :
    (s : Vfs) (n offset : ℕ) (buf content : List ℕ) (f : IsFile s n content)
    → 0 < length buf
    → offset + length buf < file_size
    → (tmpfs_write s n offset buf ≡ done (length buf, with_bytes s f (splice content offset buf)))
      × IsFile (with_bytes s f (splice content offset buf)) n (splice content offset buf)
unfolding tmpfs_write copy_in
tmpfs_write-splice s n offset buf content f pos fits =
    let small : leb file_size (u64 (offset + length buf)) ≡ false = ground arith in
    let inside : ltb (length content) (offset + length buf) ≡ false = ground (arith, f.whole) in
    (
      rw (
        f.has_node,
        f.is_file,
        small,
        f.has_entry,
        f.has_bytes,
        lt→ltb 0 (length buf) pos,
        inside,
      ),
      with_bytes-IsFile s n content (splice content offset buf) f
          (length-splice content offset buf (omega (arith, f.whole)) ∙ f.whole),
    )

pub tmpfs_read-take :
    (s : Vfs) (n offset size : ℕ) (content : List ℕ)
    → IsFile s n content
    → 0 < size
    → offset + size < file_size
    → tmpfs_read s n offset size ≡ done (size, take size (drop offset content))
unfolding tmpfs_read copy_out
tmpfs_read-take s n offset size content f pos fits =
    let small : leb file_size (u64 (offset + size)) ≡ false = ground arith in
    let inside : ltb (length content) (offset + size) ≡ false = ground (arith, f.whole) in
    rw (f.has_node, f.is_file, small, f.has_entry, f.has_bytes, lt→ltb 0 size pos, inside)

-- What was written, one byte or more that end before the last byte of a file's pages, is what a
-- read of the same place returns; both calls return the number of bytes.
pub tmpfs_read-tmpfs_write :
    (s : Vfs) (n offset : ℕ) (buf content : List ℕ)
    → IsFile s n content
    → 0 < length buf
    → offset + length buf < file_size
    → (s' : Vfs) × (tmpfs_write s n offset buf ≡ done (length buf, s'))
      × (tmpfs_read s' n offset (length buf) ≡ done (length buf, buf))
tmpfs_read-tmpfs_write s n offset buf content f pos fits =
    let (e, f') = tmpfs_write-splice s n offset buf content f pos fits in
    let s' = with_bytes s f (splice content offset buf) in
    (
      s',
      e,
      tmpfs_read-take s' n offset (length buf) (splice content offset buf) f' pos fits
          ∙ ap (λ b. done (length buf, b))
              (take-splice content offset buf (omega (arith, f.whole))),
    )

-- A write whose end, without overflow, reaches the size of the pages is refused with the result 0 and
-- changes nothing; this includes a write that would just fill the pages.
pub tmpfs_write-refused :
    (s : Vfs) (n offset : ℕ) (buf content : List ℕ)
    → IsFile s n content
    → file_size ≤ offset + length buf
    → offset + length buf < 2 ^ 64
    → tmpfs_write s n offset buf ≡ done (0, s)
unfolding tmpfs_write
tmpfs_write-refused s n offset buf content f large small =
    let refused : leb file_size (u64 (offset + length buf)) ≡ true = ground arith in
    rw (f.has_node, f.is_file, refused)

-- An offset and size whose sum wraps past 2^64 to a small number pass the check, and the copy goes
-- outside the pages.
pub tmpfs_write-wraps :
    (s : Vfs) (n offset : ℕ) (buf content : List ℕ)
    → IsFile s n content
    → 0 < length buf
    → offset < 2 ^ 64
    → 2 ^ 64 ≤ offset + length buf
    → offset + length buf < 2 ^ 64 + file_size
    → tmpfs_write s n offset buf ≡ fault
unfolding tmpfs_write copy_in
tmpfs_write-wraps s n offset buf content f pos low high end =
    let passes : leb file_size (u64 (offset + length buf)) ≡ false = ground arith in
    let outside : ltb (length content) (offset + length buf) ≡ true = ground (arith, f.whole) in
    rw (f.has_node, f.is_file, passes, f.has_entry, f.has_bytes, lt→ltb 0 (length buf) pos, outside)
