-- ===== src/Slab/Chain.antt =====
-- The free objects of one slab: a chain through their first words.
use spctrx.Common.{
  ◌⊎◌, ℕ, zero, suc, ◌+◌, ◌-◌, ◌*◌, ◌<◌, ◌≤◌, ◌≡◌, refl, sym, ap, ◌∙◌, List, [], ◌∷◌, arith, length,
  ne→==, eq→==,
}
use native.Mathlib.Nat.{suc-mul}
use spctrx.LinkedList.{Apart, AllApart}
use spctrx.Slab.Defs.{Store, sizeof_slab, write_word, link_loop}
use spctrx.Common.Words.{page_size}

-- Each object of the list holds the address of the next one; what the last one holds does not matter.
abbrev pub Links : (ℕ → ℕ) → ℕ → List ℕ → Type 0
Links words p [] = Unit
Links words p (x ∷ xs) = (p ≡ x) × Links words (words x) xs

-- One of the `count` objects of `size` bytes behind the header.
abbrev pub IsObject : ℕ → ℕ → ℕ → ℕ → Type 0
IsObject size count slab x = (k : ℕ) × (k < count) × (x ≡ slab + sizeof_slab + k * size)

abbrev pub AllObjects : ℕ → ℕ → ℕ → List ℕ → Type 0
AllObjects size count slab [] = Unit
AllObjects size count slab (x ∷ xs) = IsObject size count slab x × AllObjects size count slab xs

-- A slab whose free objects are those of the list, in the order in which they are handed out.
pub record IsSlab (size count : ℕ) (w : Store) (slab : ℕ) (free : List ℕ) : Type 0 where
  pub begins : (w.slabs slab).start ≡ slab + sizeof_slab
  pub counted : (w.slabs slab).used_obj + length free ≡ count
  pub chain : Links w.words (w.slabs slab).first_free free
  pub objects : AllObjects size count slab free
  pub distinct : AllApart free

-- Objects lie behind one another.
pub object_fits : (k count size : ℕ) → k < count → k * size + size ≤ count * size
object_fits k zero size h = absurd (omega arith)
object_fits zero (suc count) size h = grind arith
object_fits (suc k) (suc count) size h =
    omega (arith, object_fits k count size (omega arith), suc-mul k size, suc-mul count size)

-- An object lies in the page, if all of them do.
pub object_in_page :
    (size count slab x : ℕ)
    → 0 < size
    → sizeof_slab + count * size ≤ page_size
    → IsObject size count slab x
    → (slab + sizeof_slab ≤ x) × (x + size ≤ slab + page_size)
object_in_page size count slab x pos room (k, lt, e) = omega (arith, object_fits k count size lt)

-- The objects from `p` on.
abbrev pub object_list : ℕ → ℕ → ℕ → List ℕ
object_list size zero p = []
object_list size (suc n) p = p ∷ object_list size n (p + size)

pub length-object_list : (size n p : ℕ) → length (object_list size n p) ≡ n
length-object_list size zero p = refl
length-object_list size (suc n) p = ap suc (length-object_list size n (p + size))

object_list-AllObjects :
    (size count slab n k p : ℕ)
    → p ≡ slab + sizeof_slab + k * size
    → k + n ≤ count
    → AllObjects size count slab (object_list size n p)
object_list-AllObjects size count slab zero k p e h = tt
object_list-AllObjects size count slab (suc n) k p e h = (
  (k, omega arith, e),
  object_list-AllObjects size count slab n (suc k) (p + size) (omega (arith, suc-mul k size))
      (omega arith),
)

object_list-Apart : (size n p q : ℕ) → q < p → Apart q (object_list size n p)
object_list-Apart size zero p q h = tt
object_list-Apart size (suc n) p q h =
    (omega arith, object_list-Apart size n (p + size) q (omega arith))

object_list-AllApart : (size n p : ℕ) → 0 < size → AllApart (object_list size n p)
object_list-AllApart size zero p pos = tt
object_list-AllApart size (suc n) p pos = (
  object_list-Apart size n (p + size) p (omega arith),
  object_list-AllApart size n (p + size) pos,
)

-- The loop writes only to the first `n` objects.
pub link_loop-outside :
    (n size p q : ℕ) (words : ℕ → ℕ)
    → 0 < size
    → (q < p) ⊎ (p + n * size ≤ q)
    → link_loop n size p words q ≡ words q
unfolding link_loop
link_loop-outside zero size p q words pos h = refl
link_loop-outside (suc n) size p q words pos h =
    link_loop-outside n size (p + size) q (write_word words p (p + size)) pos
      (omega (arith, suc-mul n size))
    ∙ rw (ne→== p q (omega (arith, suc-mul n size)))

link_loop-Links :
    (n size p : ℕ) (words : ℕ → ℕ)
    → 0 < size
    → Links (link_loop n size p words) p (object_list size (suc n) p)
unfolding link_loop
link_loop-Links zero size p words pos = (refl, tt)
link_loop-Links (suc n) size p words pos =
    let next : link_loop n size (p + size) (write_word words p (p + size)) p ≡ p + size =
      link_loop-outside n size (p + size) p (write_word words p (p + size)) pos (omega arith)
      ∙ rw (eq→== p p refl) in
    (refl, rw next (link_loop-Links n size (p + size) (write_word words p (p + size)) pos))

Links-frame :
    (words words' : ℕ → ℕ) (size count slab p : ℕ) (free : List ℕ)
    → 0 < size
    → sizeof_slab + count * size ≤ page_size
    → ((a : ℕ) → slab ≤ a → a < slab + page_size → words' a ≡ words a)
    → AllObjects size count slab free
    → Links words p free
    → Links words' p free
Links-frame words words' size count slab p [] pos room same objects links = tt
Links-frame words words' size count slab p (x ∷ free) pos room same objects links =
    let (lo, hi) = object_in_page size count slab x pos room objects.0 in
    let e : words' x ≡ words x = same x (omega arith) (omega arith) in
    (
      links.0,
      rw e
          (Links-frame words words' size count slab (words x) free pos room same objects.1 links.1),
    )

-- A slab whose header and page stay as they are.
pub IsSlab-frame :
    (size count : ℕ) (w w' : Store) (slab : ℕ) (free : List ℕ)
    → 0 < size
    → sizeof_slab + count * size ≤ page_size
    → w'.slabs slab ≡ w.slabs slab
    → ((a : ℕ) → slab ≤ a → a < slab + page_size → w'.words a ≡ w.words a)
    → IsSlab size count w slab free
    → IsSlab size count w' slab free
IsSlab-frame size count w w' slab free pos room header same s = record {
  begins = rw header s.begins;
  counted = rw header s.counted;
  chain = rw header (
      Links-frame w.words w'.words size count slab (w.slabs slab).first_free free pos room same
        s.objects s.chain);
  objects = s.objects;
  distinct = s.distinct;
}

all_Links :
    (n count size p : ℕ) (words : ℕ → ℕ)
    → 0 < size
    → count ≡ suc n
    → Links (link_loop n size p words) p (object_list size count p)
all_Links n count size p words pos e = rw e (link_loop-Links n size p words pos)

-- A new slab: all of its objects are free.
pub fresh-IsSlab :
    (size count slab : ℕ) (w : Store) (words : ℕ → ℕ)
    → 0 < size
    → 0 < count
    → w.slabs slab
      ≡ record { start = slab + sizeof_slab; first_free = slab + sizeof_slab; used_obj = 0 }
    → w.words ≡ link_loop (count - 1) size (slab + sizeof_slab) words
    → IsSlab size count w slab (object_list size count (slab + sizeof_slab))
fresh-IsSlab size count slab w words pos some header linked =
    let whole : suc (count - 1) ≡ count = omega arith in
    let begin : slab + sizeof_slab ≡ slab + sizeof_slab + 0 * size = omega arith in
    record {
      begins = rw header;
      counted = rw header (omega (arith, length-object_list size count (slab + sizeof_slab)));
      chain =
          rw (header, linked)
            (all_Links (count - 1) count size (slab + sizeof_slab) words pos (sym whole));
      objects =
          object_list-AllObjects size count slab count 0 (slab + sizeof_slab) begin (omega arith);
      distinct = object_list-AllApart size count (slab + sizeof_slab) pos;
    }
