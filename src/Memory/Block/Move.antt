-- ===== src/Memory/Block/Move.antt =====
-- What the copies and `memset` leave in memory.
use spctrx.Common.{
  ℕ, zero, suc, ◌+◌, ◌%◌, ◌^◌, ◌<◌, ◌≤◌, ◌≡◌, ◌≢◌, refl, ◌∙◌, ◌⊎◌, inl, inr, ◌&&◌, done, arith, ltb,
  leb, if◌then◌else◌, Bool-cases, ne→==, eq→==, lt→ltb,
}
use native.Mathlib.Decide.{dec_lt}
use spctrx.Memory.Block.Defs.{Memory, write, store_up, memset, copy_up, copy_down, memcpy, memmove}

-- `m'` holds at `dst` the `n` bytes that `m` held at `src`, and is `m` everywhere else.
pub record Copied (m : Memory) (dst src n : ℕ) (m' : Memory) : Type 0 where
  pub inside : (i : ℕ) → i < n → m' (dst + i) ≡ m (src + i)
  pub outside : (q : ℕ) → (q < dst) ⊎ (dst + n ≤ q) → m' q ≡ m q

write_ne : (m : Memory) (a v q : ℕ) → a ≢ q → write m a v q ≡ m q
write_ne m a v q ne = rw (ne→== a q ne)

copy_up-outside :
    (n : ℕ) (m : Memory) (dst src q : ℕ) → (q < dst) ⊎ (dst + n ≤ q) → copy_up n m dst src q ≡ m q
unfolding copy_up
copy_up-outside zero m dst src q h = refl
copy_up-outside (suc n) m dst src q h =
    copy_up-outside n (write m dst (m src)) (dst + 1) (src + 1) q (omega arith)
    ∙ write_ne m dst (m src) q (omega arith)

copy_up-inside :
    (n : ℕ) (m : Memory) (dst src i : ℕ)
    → (dst ≤ src) ⊎ (src + n ≤ dst)
    → i < n
    → copy_up n m dst src (dst + i) ≡ m (src + i)
unfolding copy_up
copy_up-inside zero m dst src i h lt = absurd (omega arith)
copy_up-inside (suc n) m dst src zero h lt =
    let e : dst + 0 ≡ dst = omega arith in
    let f : src + 0 ≡ src = omega arith in
    rw (e, f)
      (copy_up-outside n (write m dst (m src)) (dst + 1) (src + 1) dst (omega arith)
        ∙ rw (eq→== dst dst refl))
copy_up-inside (suc n) m dst src (suc i) h lt =
    let e : dst + suc i ≡ dst + 1 + i = omega arith in
    let f : src + suc i ≡ src + 1 + i = omega arith in
    rw (e, f)
      (copy_up-inside n (write m dst (m src)) (dst + 1) (src + 1) i (omega arith) (omega arith)
        ∙ write_ne m dst (m src) (src + 1 + i) (omega arith))

copy_up-Copied :
    (n : ℕ) (m : Memory) (dst src : ℕ)
    → (dst ≤ src) ⊎ (src + n ≤ dst)
    → Copied m dst src n (copy_up n m dst src)
copy_up-Copied n m dst src h = record {
  inside = λ i lt. copy_up-inside n m dst src i h lt;
  outside = copy_up-outside n m dst src;
}

copy_down-Copied :
    (n : ℕ) (m : Memory) (dst src : ℕ) → src ≤ dst → Copied m dst src n (copy_down n m dst src)
unfolding copy_down
copy_down-Copied zero m dst src h = record {
  inside = λ i lt. absurd (omega arith);
  outside = λ q o. refl;
}
copy_down-Copied (suc n) m dst src h =
    let top : ℕ = m (src + n) in
    let rest = copy_down-Copied n (write m (dst + n) top) dst src h in
    record {
      inside = λ i lt. elim (dec_lt i n) [
        | yes below ↦ rest.inside i below ∙ write_ne m (dst + n) top (src + i) (omega arith)
        | no last ↦
            let e : i ≡ n = omega arith in
            rw e (rest.outside (dst + n) (inr (omega arith)) ∙ rw (eq→== (dst + n) (dst + n) refl))
      ];
      outside = λ q o. rest.outside q (omega arith) ∙ write_ne m (dst + n) top q (omega arith);
    }

store_up-reads :
    (n : ℕ) (m : Memory) (dst v q : ℕ)
    → store_up n m dst v q ≡ (if leb dst q && ltb q (dst + n) then v else m q)
unfolding store_up
store_up-reads zero m dst v q = ground arith
store_up-reads (suc n) m dst v q = ground (arith, store_up-reads n (write m dst v) (dst + 1) v q)

-- `memmove` of a positive number of bytes between pointers that are not null returns; it copies
-- the bytes that the source held before the call, whether or not the two blocks
-- overlap, and changes nothing outside the destination.
pub memmove-Copied :
    (m : Memory) (dst src n : ℕ)
    → dst ≢ 0
    → src ≢ 0
    → 0 < n
    → (m' : Memory) × (memmove m dst src n ≡ done m') × Copied m dst src n m'
unfolding memmove
memmove-Copied m dst src n hd hs pos = elim (Bool-cases (ltb dst src)) [
  | inl up ↦ (
    copy_up n m dst src,
    rw (ne→== dst 0 hd, ne→== src 0 hs, lt→ltb 0 n pos, up),
    copy_up-Copied n m dst src (inl (ground arith)),
  )
  | inr down ↦ (
    copy_down n m dst src,
    rw (ne→== dst 0 hd, ne→== src 0 hs, lt→ltb 0 n pos, down),
    copy_down-Copied n m dst src (ground arith),
  )
]

-- `memcpy` does the same where the blocks do not overlap, or the destination lies below the source.
pub memcpy-Copied :
    (m : Memory) (dst src n : ℕ)
    → dst ≢ 0
    → src ≢ 0
    → 0 < n
    → (dst ≤ src) ⊎ (src + n ≤ dst)
    → (m' : Memory) × (memcpy m dst src n ≡ done m') × Copied m dst src n m'
unfolding memcpy
memcpy-Copied m dst src n hd hs pos apart = (
  copy_up n m dst src,
  rw (ne→== dst 0 hd, ne→== src 0 hs, lt→ltb 0 n pos),
  copy_up-Copied n m dst src apart,
)

-- `memset` writes the low byte of the value to the whole block and nowhere else.
pub memset-reads :
    (m : Memory) (dst value n : ℕ)
    → dst ≢ 0
    → 0 < n
    → (m' : Memory) × (memset m dst value n ≡ done m')
      × ((q : ℕ) → m' q ≡ (if leb dst q && ltb q (dst + n) then value % 2 ^ 8 else m q))
unfolding memset
memset-reads m dst value n hd pos = (
  store_up n m dst (value % 2 ^ 8),
  rw (ne→== dst 0 hd, lt→ltb 0 n pos),
  store_up-reads n m dst (value % 2 ^ 8),
)
