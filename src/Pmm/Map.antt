-- ===== src/Pmm/Map.antt =====
-- The three loops of `pmmInit` over the boot loader's memory map.
use spctrx.Common.{
  ℕ, ◌+◌, ◌*◌, ◌/◌, ◌%◌, ◌^◌, ◌<◌, ◌≤◌, ◌≡◌, ◌≢◌, ◌∙◌, refl, Bool, true, false, ◌&&◌, ◌||◌, not,
  inl, inr, List, [], ◌∷◌, done, arith, ltb, leb, ◌==◌, if◌then◌else◌, Bool-cases, eq→==,
}
use mathlib.Core.Bool.{false≢true}
use spctrx.Common.Words.{u64, page_size}
use spctrx.Bitmap
use spctrx.Bitmap.{
  Bitmap, marked, bitmap_init, bitmap_fill_all, bitmap_set, bitmap_calculate_size,
  bitmap_calculate_size_bounds, bitmap_init-clear, bitmap_fill_all-reads, Filled, bitmap_fill,
  bitmap_fill-Filled, Written, bitmap_set-Written,
}
use spctrx.Pmm.Defs.{MemmapEntry, last_usable, bitmap_addr, free_usable}

-- Where the usable entries up to this one end.
abbrev pub end_of : ℕ → MemmapEntry → ℕ
end_of low e = if e.usable then e.base + e.size else low

-- What the boot loader documents of the usable entries of its map: they come in ascending order, do not
-- overlap, are not empty, and begin and end at page boundaries. The other entries may overlap and may
-- lie anywhere.
abbrev pub IsMemmap : ℕ → List MemmapEntry → Type 0
IsMemmap low [] = Unit
IsMemmap low (e ∷ es) =
    (e.usable ≡ true
      → (low ≤ e.base)
        × (e.base + e.size < 2 ^ 64)
        × (e.base % page_size ≡ 0)
        × (e.size % page_size ≡ 0)
        × (0 < e.size))
    × IsMemmap (end_of low e) es

-- Usable entries end at or below `last`.
abbrev pub Below : ℕ → List MemmapEntry → Type 0
Below last [] = Unit
Below last (e ∷ es) = (e.usable ≡ true → e.base + e.size ≤ last) × Below last es

-- Page `q` lies in a usable entry.
abbrev pub usable_page : List MemmapEntry → ℕ → Bool
usable_page [] q = false
usable_page (e ∷ es) q =
    e.usable && leb e.base (q * page_size) && ltb (q * page_size) (e.base + e.size)
    || usable_page es q

-- `last` after one round of the loop.
abbrev last_after : MemmapEntry → ℕ → ℕ
last_after e l = if e.usable then u64 (e.base + e.size) else l

last_after-le :
    (e : MemmapEntry) (low l : ℕ)
    → (e.usable ≡ true → (low ≤ e.base) × (e.base + e.size < 2 ^ 64))
    → l ≤ low
    → (last_after e l ≤ end_of low e)
      × (l ≤ last_after e l)
      × (e.usable ≡ true → last_after e l ≡ e.base + e.size)
last_after-le e low l m h = elim (Bool-cases e.usable) [
  | inl u ↦ let (above, fits) = m u in rw u (omega arith, omega arith, λ v. omega (arith, fits))
  | inr skip ↦ rw skip (h, omega arith, λ v. absurd (false≢true v))
]

pub last_usable-le :
    (es : List MemmapEntry) (low l : ℕ) → IsMemmap low es → l ≤ low → l ≤ last_usable es l
unfolding last_usable
last_usable-le [] low l m h = omega arith
last_usable-le (e ∷ es) low l m h =
    let (le, more, _) = last_after-le e low l (λ u. let (a, f, _, _, _) = m.0 u in (a, f)) h in
    omega (arith, more, last_usable-le es (end_of low e) (last_after e l) m.1 le)

pub last_usable-Below :
    (es : List MemmapEntry) (low l : ℕ) → IsMemmap low es → l ≤ low → Below (last_usable es l) es
unfolding last_usable
last_usable-Below [] low l m h = tt
last_usable-Below (e ∷ es) low l m h =
    let (le, more, at) = last_after-le e low l (λ u. let (a, f, _, _, _) = m.0 u in (a, f)) h in
    (
      λ u. omega (arith, at u, last_usable-le es (end_of low e) (last_after e l) m.1 le),
      last_usable-Below es (end_of low e) (last_after e l) m.1 le,
    )

pub last_usable-lt :
    (es : List MemmapEntry) (low l : ℕ) → IsMemmap low es → l < 2 ^ 64 → last_usable es l < 2 ^ 64
unfolding last_usable
last_usable-lt [] low l m h = h
last_usable-lt (e ∷ es) low l m h =
    last_usable-lt es (end_of low e) (if e.usable then u64 (e.base + e.size) else l) m.1
      (ground arith)

-- The place for the bitmap: a usable entry that is large enough.
pub record Place (last size addr : ℕ) : Type 0 where
  pub room : ℕ
  pub large : size ≤ room
  pub below : addr + room ≤ last
  pub aligned : addr % page_size ≡ 0
  pub whole : room % page_size ≡ 0
  pub filled : 0 < room

pub bitmap_addr-Place :
    (es : List MemmapEntry) (low last size : ℕ)
    → IsMemmap low es
    → Below last es
    → bitmap_addr es size ≢ 0
    → Place last size (bitmap_addr es size)
unfolding bitmap_addr
bitmap_addr-Place [] low last size m b h = absurd (h refl)
bitmap_addr-Place (e ∷ es) low last size m b h =
    elim (Bool-cases (e.usable && not (e.base == 0) && leb size e.size)) [
      | inl fits ↦
          let u : e.usable ≡ true = ground arith in
          let large : size ≤ e.size = ground arith in
          let (above, fit, aligned, whole, filled) = m.0 u in
          let below = b.0 u in
          rw fits (record {
            room = e.size;
            large = large;
            below = below;
            aligned = aligned;
            whole = whole;
            filled = filled;
          })
      | inr other ↦ rw other (bitmap_addr-Place es (end_of low e) last size m.1 b.1 (rw other at h))
    ]

-- What the third loop leaves.
pub record Freed (es : List MemmapEntry) (b b' : Bitmap) : Type 0 where
  pub same_bits : b'.bits ≡ b.bits
  pub valid : Bitmap.IsValid b'
  pub reads : (q : ℕ) → marked b' q ≡ (if usable_page es q then false else marked b q)

free_usable-step :
    (x : MemmapEntry) (es : List MemmapEntry) (b b' : Bitmap)
    → x.usable ≡ true
    → x.base % page_size ≡ 0
    → x.base + x.size < 2 ^ 64
    → bitmap_fill b (x.base / page_size) ((x.base + x.size) / page_size) false ≡ done b'
    → free_usable (x ∷ es) b ≡ free_usable es b'
unfolding free_usable
free_usable-step x es b b' u aligned fits e =
    let small : u64 (x.base + x.size) ≡ x.base + x.size = omega arith in
    rw (eq→== _ 0 aligned, u, small, e)

pub free_usable-Freed :
    (es : List MemmapEntry) (low last : ℕ) (b : Bitmap)
    → IsMemmap low es
    → Below last es
    → Bitmap.IsValid b
    → b.bits ≡ last / page_size
    → (b' : Bitmap) × (free_usable es b ≡ done b') × Freed es b b'
unfolding free_usable
free_usable-Freed [] low last b m below v e =
    (b, refl, record { same_bits = refl; valid = v; reads = λ q. refl })
free_usable-Freed (x ∷ es) low last b m below v e = elim (Bool-cases x.usable) [
  | inl u ↦
      let (above, fits, aligned, whole, filled) = m.0 u in
      let end = below.0 u in
      let (b₁, e₁, f) =
        bitmap_fill-Filled b (x.base / page_size) ((x.base + x.size) / page_size) false v
          (omega arith) (omega arith) in
      let (b₂, e₂, g) =
        free_usable-Freed es (end_of low x) last b₁ m.1 below.1 f.valid (f.same_bits ∙ e) in
      (
        b₂,
        free_usable-step x es b b₁ u aligned fits e₁ ∙ e₂,
        record {
          same_bits = g.same_bits ∙ f.same_bits;
          valid = g.valid;
          reads = λ q. ground (arith, g.reads q, f.reads q);
        },
      )
  | inr skip ↦
      let (b₂, e₂, g) = free_usable-Freed es (end_of low x) last b m.1 below.1 v e in
      let test : ((x.base % page_size == 0) && x.usable) ≡ false = ground arith in
      (
        b₂,
        rw test e₂,
        record { same_bits = g.same_bits; valid = g.valid; reads = λ q. ground (arith, g.reads q) },
      )
]
