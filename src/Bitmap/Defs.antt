-- ===== src/Bitmap/Defs.antt =====
-- The struct and the functions of bitmap.c.
use spctrx.Common.{
  ℕ, zero, suc, ◌+◌, ◌-◌, ◌*◌, ◌/◌, ◌%◌, ◌^◌, bit_and, bit_or, Bool, ◌&&◌, not, none, some, List,
  Outcome, done, fault, ◌>>=◌, ◌>>◌, assert, ltb, leb, ◌==◌, if◌then◌else◌, length, get_elem?,
  get_or, get_elem?-get_or, ◌<◌, ◌≡◌, set, replicate,
}
use spctrx.Common.Words.{not64, u64, div_round_up}

-- `data` is called `words` here.
pub record Bitmap : Type 0 where
  pub bits : ℕ
  pub data_size : ℕ
  pub words : List ℕ

unfoldable pub bitmap_calculate_size : ℕ → ℕ
unfolding div_round_up
bitmap_calculate_size bits = u64 (div_round_up bits 64 * 8)

-- `INDEX`, `BIT`.
abbrev pub index : ℕ → ℕ
index pos = pos / 64

abbrev pub bit : ℕ → ℕ
bit pos = 2 ^ (pos % 64)

-- `bitmap->data[i]`: outside the array C leaves the access undefined.
unfoldable pub word : List ℕ → ℕ → Outcome ℕ
word ws i = elim (get_elem? ws i) [ none ↦ fault | some w ↦ done w ]

pub word-get_or : (ws : List ℕ) (i : ℕ) → i < length ws → word ws i ≡ done (get_or ws i 0)
unfolding word
word-get_or ws i h = rw (get_elem?-get_or ws i 0 h, word)

-- `memset(bitmap->data, byte, bitmap->dataSize)` over whole words: `ws` is the storage at `data`.
-- `memset` asserts that the count is positive. A storage that is too short is an invalid access.
abbrev pub memset_words : List ℕ → ℕ → ℕ → Outcome (List ℕ)
memset_words ws w size = do
  assert (ltb 0 size)
  if ltb (length ws) (size / 8) then fault else done (replicate (size / 8) w)

unfoldable pub bitmap_init : ℕ → List ℕ → Outcome Bitmap
bitmap_init bits storage = do
  assert (ltb 0 bits)
  words ← memset_words storage 0 (bitmap_calculate_size bits)
  done (record { bits = bits; data_size = bitmap_calculate_size bits; words = words })

unfoldable pub bitmap_set : Bitmap → ℕ → Bool → Outcome Bitmap
bitmap_set b pos value = do
  assert (ltb pos b.bits)
  w ← word b.words (index pos)
  let w' = if value then bit_or w (bit pos) else bit_and w (not64 (bit pos))
  done (record b { words = set b.words (index pos) w' })

unfoldable pub bitmap_check : Bitmap → ℕ → Outcome Bool
bitmap_check b pos = do
  assert (ltb pos b.bits)
  w ← word b.words (index pos)
  done (not (bit_and w (bit pos) == 0))

unfoldable pub bitmap_fill_all : Bitmap → Bool → Outcome Bitmap
bitmap_fill_all b value = do
  words ← memset_words b.words (if value then 2 ^ 64 - 1 else 0) b.data_size
  done (record b { words = words })

-- `for (pos = from; pos < to; pos++)`: `n` rounds are left, `to - from` at the start.
unfoldable pub fill_loop : ℕ → ℕ → Bool → Bitmap → Outcome Bitmap
fill_loop zero pos value b = done b
fill_loop (suc n) pos value b = do b' ← bitmap_set b pos value; fill_loop n (pos + 1) value b'

unfoldable pub bitmap_fill : Bitmap → ℕ → ℕ → Bool → Outcome Bitmap
unfolding fill_loop
bitmap_fill b from to value = do
  assert (ltb from b.bits)
  assert (leb to b.bits)
  fill_loop (to - from) from value b

-- `for (pos = 0; pos < bitmap->bits; pos++)` with the variables `start` and `current`.
unfoldable pub find_loop : ℕ → Bitmap → ℕ → ℕ → ℕ → ℕ → Outcome ℕ
find_loop zero b len pos start current = done 0
find_loop (suc n) b len pos start current = do
  used ← bitmap_check b pos
  let start' = if used then pos + 1 else start
  let current' = if used then 0 else current + 1
  let rest = find_loop n b len (pos + 1) start' current'
  if not used && current' == len then done start else rest

unfoldable pub bitmap_find : Bitmap → ℕ → Outcome ℕ
unfolding find_loop
bitmap_find b len = do assert (ltb 0 len); find_loop b.bits b len 0 0 0
