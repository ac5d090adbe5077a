-- ===== src/Memory/Block/Defs.antt =====
-- The functions on memory blocks. The string instructions `rep stosb` and `rep movsb` go upwards one
-- byte at a time; their destination and source are the registers that hold the first two arguments.
use spctrx.Common.{
  ℕ, zero, suc, ◌+◌, ◌%◌, ◌^◌, not, Outcome, done, ◌>>◌, assert, ltb, ◌==◌, if◌then◌else◌,
}

-- The byte at each address.
abbrev pub Memory : Type 0
Memory = ℕ → ℕ

abbrev pub write : Memory → ℕ → ℕ → Memory
write m a v q = if a == q then v else m q

unfoldable pub store_up : ℕ → Memory → ℕ → ℕ → Memory
store_up zero m dst v = m
store_up (suc n) m dst v = store_up n (write m dst v) (dst + 1) v

unfoldable pub memset : Memory → ℕ → ℕ → ℕ → Outcome Memory
unfolding store_up
memset m dst value n = do
  assert (not (dst == 0))
  assert (ltb 0 n)
  done (store_up n m dst (value % 2 ^ 8))

-- `dst[i] = src[i]` for `i` from `0` upwards, `n` rounds.
unfoldable pub copy_up : ℕ → Memory → ℕ → ℕ → Memory
copy_up zero m dst src = m
copy_up (suc n) m dst src = copy_up n (write m dst (m src)) (dst + 1) (src + 1)

-- `dst[i - 1] = src[i - 1]` for `i` from `n` down to 1.
unfoldable pub copy_down : ℕ → Memory → ℕ → ℕ → Memory
copy_down zero m dst src = m
copy_down (suc i) m dst src = copy_down i (write m (dst + i) (m (src + i))) dst src

unfoldable pub memcpy : Memory → ℕ → ℕ → ℕ → Outcome Memory
unfolding copy_up
memcpy m dst src n = do
  assert (not (dst == 0))
  assert (not (src == 0))
  assert (ltb 0 n)
  done (copy_up n m dst src)

unfoldable pub memmove : Memory → ℕ → ℕ → ℕ → Outcome Memory
unfolding copy_up copy_down
memmove m dst src n = do
  assert (not (dst == 0))
  assert (not (src == 0))
  assert (ltb 0 n)
  done (if ltb dst src then copy_up n m dst src else copy_down n m dst src)

-- The three results of `memcmp`: -1, 0, 1.
pub data Order : Type 0 where
  less : Order
  equal : Order
  greater : Order

unfoldable pub compare_loop : ℕ → Memory → ℕ → ℕ → Order
compare_loop zero m a b = equal
compare_loop (suc n) m a b =
    let rest = compare_loop n m (a + 1) (b + 1) in
    if not (m a == m b) then (if ltb (m b) (m a) then greater else less) else rest

unfoldable pub memcmp : Memory → ℕ → ℕ → ℕ → Outcome Order
unfolding compare_loop
memcmp m a b n = do
  assert (not (a == 0))
  assert (not (b == 0))
  assert (ltb 0 n)
  done (compare_loop n m a b)
