-- ===== src/Bitmap/Fill.antt =====
-- `bitmapInit`, `bitmapFillAll` and `bitmapFill` against the view.
use spctrx.Common.{
  ℕ, zero, suc, ◌+◌, ◌-◌, ◌*◌, ◌/◌, ◌%◌, ◌^◌, ◌<◌, ◌≤◌, ◌≡◌, refl, Bool, false, not, List, inl, inr,
  ◌∙◌, ◌⊎◌, done, panic, arith, ltb, leb, ◌==◌, ◌&&◌, if◌then◌else◌, Bool-cases, length, get_or,
  replicate, get_or-replicate, length-replicate, lt→ltb, le→leb,
}
use spctrx.Common.Bits.{digit, digit-zero, digit-ones}
use spctrx.Bitmap.Defs.{
  Bitmap, bitmap_calculate_size, bitmap_init, bitmap_fill_all, fill_loop, bitmap_fill, memset_words,
}
use spctrx.Bitmap.View.{marked, IsValid, bitmap_set-Written}

-- What a fill of the positions from `from` up to `to` leaves.
pub record Filled (b : Bitmap) (from to : ℕ) (value : Bool) (b' : Bitmap) : Type 0 where
  pub same_bits : b'.bits ≡ b.bits
  pub valid : IsValid b'
  pub reads : (q : ℕ) → marked b' q ≡ (if leb from q && ltb q to then value else marked b q)

fill_loop-Filled :
    (n : ℕ) (b : Bitmap) (pos : ℕ) (value : Bool)
    → IsValid b
    → pos + n ≤ b.bits
    → (b' : Bitmap) × (fill_loop n pos value b ≡ done b') × Filled b pos (pos + n) value b'
unfolding fill_loop
fill_loop-Filled zero b pos value v h =
    (b, refl, record { same_bits = refl; valid = v; reads = λ q. ground arith })
fill_loop-Filled (suc n) b pos value v h =
    let (b₁, e₁, w) = bitmap_set-Written b v pos (omega arith) value in
    let (b₂, e₂, f) = fill_loop-Filled n b₁ (pos + 1) value w.valid (omega (arith, w.same_bits)) in
    (
      b₂,
      rw e₁ e₂,
      record {
        same_bits = f.same_bits ∙ w.same_bits;
        valid = f.valid;
        reads = λ q. ground (arith, w.reads q, f.reads q);
      },
    )

-- A call whose bounds pass the assertions returns, and sets exactly the positions in
-- `[from, to)` to `value`; when `to` is not above `from` nothing changes.
pub bitmap_fill-Filled :
    (b : Bitmap) (from to : ℕ) (value : Bool)
    → IsValid b
    → from < b.bits
    → to ≤ b.bits
    → (b' : Bitmap) × (bitmap_fill b from to value ≡ done b') × Filled b from to value b'
unfolding bitmap_fill
bitmap_fill-Filled b from to value v hf ht =
    let (b', e, f) = fill_loop-Filled (to - from) b from value v (omega arith) in
    (
      b',
      rw (lt→ltb from b.bits hf, le→leb to b.bits ht) e,
      record { same_bits = f.same_bits; valid = f.valid; reads = λ q. ground (arith, f.reads q) },
    )

-- A bound that the bitmap does not have stops the machine.
pub bitmap_fill-panic :
    (b : Bitmap) (from to : ℕ) (value : Bool)
    → (b.bits ≤ from) ⊎ (b.bits < to)
    → bitmap_fill b from to value ≡ panic
unfolding bitmap_fill
bitmap_fill-panic b from to value h = ground arith

-- The size in bytes, without overflow: eight bytes for each word, and a word for 64 bits.
pub bitmap_calculate_size_bounds :
    (bits : ℕ)
    → bits < 2 ^ 63
    → (bitmap_calculate_size bits ≡ 8 * ((bits + 63) / 64))
      × (bits ≤ 8 * bitmap_calculate_size bits)
      × (8 * bitmap_calculate_size bits < bits + 64)
unfolding bitmap_calculate_size
bitmap_calculate_size_bounds bits h = omega arith

memset_words-replicate :
    (ws : List ℕ) (w n : ℕ)
    → 0 < n
    → n ≤ length ws
    → memset_words ws w (8 * n) ≡ done (replicate n w)
memset_words-replicate ws w n pos room =
    let words : 8 * n / 8 ≡ n = omega arith in
    rw (lt→ltb 0 (8 * n) (omega arith), words) (ground arith)

-- An array of one repeated word, all zeros or all ones, marks every position alike.
replicate_uniform :
    (n bits : ℕ) (value : Bool) (q : ℕ)
    → bits ≤ 64 * n
    → q < bits
    → not (digit (q % 64) (get_or (replicate n (if value then 2 ^ 64 - 1 else 0)) (q / 64) 0) == 0)
      ≡ value
replicate_uniform n bits value q room h =
    rw (get_or-replicate n (q / 64) (if value then 2 ^ 64 - 1 else 0) 0 (omega arith))
      (elim (Bool-cases value) [
        | inl e ↦ rw (e, digit-ones 64 (q % 64) (omega arith))
        | inr e ↦ rw (e, digit-zero (q % 64))
      ])

-- `bitmapInit` on storage that is large enough gives a valid bitmap with no position marked.
pub bitmap_init-clear :
    (bits : ℕ) (storage : List ℕ)
    → 0 < bits
    → bits < 2 ^ 63
    → bits ≤ 64 * length storage
    → (b : Bitmap) × (bitmap_init bits storage ≡ done b)
      × (b.bits ≡ bits)
      × IsValid b
      × ((q : ℕ) → q < bits → marked b q ≡ false)
unfolding bitmap_init
bitmap_init-clear bits storage pos small room =
    let n : ℕ = (bits + 63) / 64 in
    let size = (bitmap_calculate_size_bounds bits small).0 in
    (
      record { bits = bits; data_size = 8 * n; words = replicate n 0 },
      rw (lt→ltb 0 bits pos, size, memset_words-replicate storage 0 n (omega arith) (omega arith)),
      refl,
      record {
        covers = omega (arith, length-replicate {A = ℕ} n 0);
        sized = omega (arith, length-replicate {A = ℕ} n 0);
      },
      λ q h. replicate_uniform n bits false q (omega arith) h,
    )

-- `bitmapFillAll` of a valid bitmap that is not empty returns, gives every position the value and
-- keeps the bitmap valid.
pub bitmap_fill_all-reads :
    (b : Bitmap) (value : Bool)
    → IsValid b
    → 0 < b.bits
    → (b' : Bitmap) × (bitmap_fill_all b value ≡ done b')
      × (b'.bits ≡ b.bits)
      × IsValid b'
      × ((q : ℕ) → q < b.bits → marked b' q ≡ value)
unfolding bitmap_fill_all
bitmap_fill_all-reads b value v pos =
    let n = length b.words in
    let w : ℕ = if value then 2 ^ 64 - 1 else 0 in
    (
      record b { words = replicate n w },
      rw (v.sized, memset_words-replicate b.words w n (omega (arith, v.covers)) (omega arith)),
      refl,
      record {
        covers = omega (arith, v.covers, length-replicate {A = ℕ} n w);
        sized = omega (arith, v.sized, length-replicate {A = ℕ} n w);
      },
      λ q h. replicate_uniform n b.bits value q v.covers h,
    )
