-- ===== src/Bitmap/Find.antt =====
-- `bitmapFind` returns the first run of free positions.
use spctrx.Common.{
  ℕ, zero, suc, ◌+◌, ◌<◌, ◌≤◌, ◌≡◌, refl, true, false, inl, inr, done, arith, ◌==◌, Bool-cases,
  lt→ltb,
}
use native.Mathlib.Decide.{dec_lt}
use spctrx.Bitmap.Defs.{Bitmap, find_loop, bitmap_find}
use spctrx.Bitmap.View.{marked, IsValid, bitmap_check-marked}

-- `len` free positions from `s` on, all of them inside the bitmap.
pub record IsRun (b : Bitmap) (len s : ℕ) : Type 0 where
  pub inside : s + len ≤ b.bits
  pub free : (q : ℕ) → s ≤ q → q < s + len → marked b q ≡ false

-- What the search has established when it ends with `r`: the first run, or 0 when there is none.
pub data Found (b : Bitmap) (len : ℕ) : ℕ → Type 0 where
  first : {r : ℕ} → IsRun b len r → ((s : ℕ) → IsRun b len s → r ≤ s) → Found b len r
  nothing : {r : ℕ} → r ≡ 0 → ((s : ℕ) → IsRun b len s → ⊥) → Found b len r

-- Before position `pos`: `current` free positions end there, and no run begins before them.
record Scanned (b : Bitmap) (len pos start current : ℕ) : Type 0 where
  ends : start + current ≡ pos
  short : current < len
  free : (q : ℕ) → start ≤ q → q < pos → marked b q ≡ false
  none_before : (s : ℕ) → IsRun b len s → start ≤ s

module _ (b : Bitmap) (v : IsValid b) (len : ℕ) (pos_len : 0 < len) where
  Scanned-used :
      {pos start current : ℕ}
      → Scanned b len pos start current
      → marked b pos ≡ true
      → Scanned b len (pos + 1) (pos + 1) 0
  Scanned-used {pos} {start} i used = record {
    ends = omega arith;
    short = pos_len;
    free = λ q lo hi. absurd (omega arith);
    none_before = λ s run. elim (dec_lt pos s) [
      | yes after ↦ omega arith
      | no before ↦
          let lo = i.none_before s run in
          let hit = run.free pos (omega arith) (omega (arith, i.ends, i.short)) in ground arith
    ];
  }

  Scanned-free :
      {pos start current : ℕ}
      → Scanned b len pos start current
      → marked b pos ≡ false
      → current + 1 < len
      → Scanned b len (pos + 1) start (current + 1)
  Scanned-free {pos} {start} i free h = record {
    ends = omega (arith, i.ends);
    short = h;
    free = λ q lo hi. ground (arith, i.free q);
    none_before = i.none_before;
  }

  find_loop-Found :
      (n pos start current : ℕ)
      → pos + n ≡ b.bits
      → Scanned b len pos start current
      → (r : ℕ) × (find_loop n b len pos start current ≡ done r) × Found b len r
  unfolding find_loop
  find_loop-Found zero pos start current e i = (
    0,
    refl,
    nothing refl λ s run. omega (arith, run.inside, i.none_before s run, i.ends, i.short),
  )
  find_loop-Found (suc n) pos start current e i = elim (Bool-cases (marked b pos)) [
    | inl used ↦
        let (r, eq, found) =
          find_loop-Found n (pos + 1) (pos + 1) 0 (omega arith) (Scanned-used i used) in
        (r, rw (bitmap_check-marked b v pos (omega arith), used) eq, found)
    | inr free ↦ elim (Bool-cases (current + 1 == len)) [
      | inl whole ↦
          let full : current + 1 ≡ len = ground arith in
          let run : IsRun b len start = record {
            inside = omega (arith, i.ends);
            free = λ q lo hi. elim (dec_lt q pos) [
              | yes before ↦ i.free q lo before
              | no last ↦ let here : q ≡ pos = omega (arith, i.ends) in rw here free
            ];
          } in
          (
            start,
            rw (bitmap_check-marked b v pos (omega arith), free, whole),
            first run i.none_before,
          )
      | inr more ↦
          let short : current + 1 < len = ground (arith, i.short) in
          let (r, eq, found) =
            find_loop-Found n (pos + 1) start (current + 1) (omega arith)
              (Scanned-free i free short) in
          (r, rw (bitmap_check-marked b v pos (omega arith), free, more) eq, found)
    ]
  ]

-- On a valid bitmap the search for a positive length returns, without a failed assertion: the
-- least start of a run of that many free positions if there is a run, and 0 if there is none.
pub bitmap_find-Found :
    (b : Bitmap) (len : ℕ)
    → IsValid b
    → 0 < len
    → (r : ℕ) × (bitmap_find b len ≡ done r) × Found b len r
unfolding bitmap_find
bitmap_find-Found b len v h = rw (lt→ltb 0 len h) (
    find_loop-Found b v len h b.bits 0 0 0 (omega arith) (record {
      ends = refl;
      short = h;
      free = λ q lo hi. absurd (omega arith);
      none_before = λ s run. omega arith;
    }))
