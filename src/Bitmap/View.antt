-- ===== src/Bitmap/View.antt =====
-- The bitmap as a function from positions to Booleans, and what one write does to it.
use spctrx.Common.{
  ℕ, ◌*◌, ◌/◌, ◌%◌, ◌^◌, ◌<◌, ◌≤◌, bit_and, bit_or, ◌≡◌, ◌≢◌, refl, ap, Bool, true, false, not, inl,
  inr, done, arith, ◌==◌, if◌then◌else◌, Bool-cases, length, get_or, set, get_or-set_self,
  get_or-set_ne, length-set, lt→ltb,
}
use spctrx.Common.Words.{not64}
use spctrx.Common.Bits.{digit, digit-bit_or, digit-bit_and, digit-pow, digit-compl, digit-lt}
use spctrx.Common.Bits.{bit_and-pow_test}
use spctrx.Bitmap.Defs.{Bitmap, word, word-get_or, bitmap_set, bitmap_check}

-- Whether position `pos` is marked.
abbrev pub marked : Bitmap → ℕ → Bool
marked b pos = not (digit (pos % 64) (get_or b.words (pos / 64) 0) == 0)

-- The array covers every position, and `dataSize` is its size in bytes.
pub record IsValid (b : Bitmap) : Type 0 where
  pub covers : b.bits ≤ 64 * length b.words
  pub sized : b.data_size ≡ 8 * length b.words

-- What a write of `value` at `pos` leaves.
pub record Written (b : Bitmap) (pos : ℕ) (value : Bool) (b' : Bitmap) : Type 0 where
  pub same_bits : b'.bits ≡ b.bits
  pub valid : IsValid b'
  pub reads : (q : ℕ) → marked b' q ≡ (if pos == q then value else marked b q)

-- The new word, digit by digit.
abbrev pub new_word : ℕ → ℕ → Bool → ℕ
new_word w k value = if value then bit_or w (2 ^ k) else bit_and w (not64 (2 ^ k))

new_word-digit :
    (w k j : ℕ) (value : Bool)
    → k < 64
    → j < 64
    → (digit j (new_word w k value) == 0) ≡ (if k == j then not value else (digit j w == 0))
new_word-digit w k j true hk hj =
    ground (arith, digit-bit_or j w (2 ^ k), digit-pow j k, digit-lt j w)
new_word-digit w k j false hk hj =
    ground (arith, digit-bit_and j w (not64 (2 ^ k)), digit-compl 64 j k hj hk, digit-lt j w)

module _ (b : Bitmap) (v : IsValid b) (pos : ℕ) (h : pos < b.bits) where
  word_at : word b.words (pos / 64) ≡ done (get_or b.words (pos / 64) 0)
  word_at = word-get_or b.words (pos / 64) (omega (arith, v.covers))

  -- A check of a position of a valid bitmap returns whether it is marked.
  pub bitmap_check-marked : bitmap_check b pos ≡ done (marked b pos)
  unfolding bitmap_check
  bitmap_check-marked =
      rw (lt→ltb pos b.bits h, word_at)
        (ap (λ c. done (not c)) (bit_and-pow_test (pos % 64) (get_or b.words (pos / 64) 0)))

  abbrev old : ℕ
  old = get_or b.words (pos / 64) 0

  abbrev written : Bool → Bitmap
  written value = record b { words = set b.words (pos / 64) (new_word old (pos % 64) value) }

  written-reads :
      (value : Bool) (q : ℕ) → marked (written value) q ≡ (if pos == q then value else marked b q)
  written-reads value q = elim (Bool-cases (pos / 64 == q / 64)) [
    | inl same ↦
        let e : q / 64 ≡ pos / 64 = ground arith in
        let inside : pos / 64 < length b.words = omega (arith, v.covers) in
        rw (e, get_or-set_self b.words (pos / 64) (new_word old (pos % 64) value) 0 inside)
          (ground (arith, new_word-digit old (pos % 64) (q % 64) value (omega arith) (omega arith)))
    | inr other ↦
        let apart : pos / 64 ≢ q / 64 = ground arith in
        rw (get_or-set_ne b.words (pos / 64) (q / 64) (new_word old (pos % 64) value) 0 apart)
          (ground arith)
  ]

  -- A write at a position of a valid bitmap returns; that position then has the value, every other one
  -- what it had, and the bitmap stays valid.
  pub bitmap_set-Written :
      (value : Bool) → (b' : Bitmap) × (bitmap_set b pos value ≡ done b') × Written b pos value b'
  unfolding bitmap_set
  bitmap_set-Written value = (
    written value,
    rw (lt→ltb pos b.bits h, word_at),
    record {
      same_bits = refl;
      valid = record {
        covers =
            omega (arith, v.covers, length-set b.words (pos / 64) (new_word old (pos % 64) value));
        sized =
            omega (arith, v.sized, length-set b.words (pos / 64) (new_word old (pos % 64) value));
      };
      reads = written-reads value;
    },
  )
