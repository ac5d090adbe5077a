-- ===== src/Irq/Start.antt =====
-- The vectors from `irqInit` on.
use spctrx.Common.{
  ◌*◌, ℕ, zero, suc, ◌+◌, ◌-◌, ◌<◌, ◌≤◌, ◌≡◌, ◌∙◌, refl, sym, Bool, true, false, ◌||◌, inl, inr,
  List, [], ◌∷◌, none, Outcome, done, ◌>>=◌, arith, ltb, ◌==◌, if◌then◌else◌, length, replicate,
  Bool-cases,
}
use spctrx.Bitmap.{marked, bitmap_init-clear}
use spctrx.Irq.Defs.{Irq, irq_handlers, irq_alloc_vector, irq_init, isr_handler}
use spctrx.Irq.Laws.{IsValid, taken, irq_alloc_vector-Fresh, isr_handler-irq_install}

-- The vectors from 32 on have been given out, `k` of them, and the one of the spurious interrupt.
pub record Given (s : Irq) (k : ℕ) : Type 0 where
  pub valid : IsValid s
  pub reads : (w : ℕ) → 32 ≤ w → w < 256 → taken s w ≡ (ltb w (32 + k) || w == 255)

first_reads :
    (w : ℕ) (now before : Bool)
    → 32 ≤ w
    → now ≡ (if 255 == w then true else before)
    → before ≡ false
    → now ≡ (ltb w (32 + 0) || w == 255)
first_reads w now before lo change clear = ground arith

later_reads :
    (k w : ℕ) (now before : Bool)
    → now ≡ (if 32 + k == w then true else before)
    → before ≡ (ltb w (32 + k) || w == 255)
    → now ≡ (ltb w (32 + suc k) || w == 255)
later_reads k w now before change old = ground arith

free_vector : (k : ℕ) → k < 223 → (ltb (32 + k) (32 + k) || 32 + k == 255) ≡ false
free_vector k room = ground arith

irq_init-Given :
    (storage : List ℕ) (spurious : ℕ)
    → irq_handlers ≤ 64 * length storage
    → (s : Irq) × (irq_init storage spurious ≡ done s)
      × Given s 0
      × (isr_handler s 255 ≡ done spurious)
unfolding irq_init
irq_init-Given storage spurious room =
    let (b, run, bits, valid, clear) =
      bitmap_init-clear irq_handlers storage (omega arith) (omega arith) room in
    let start : Irq = record { handlers = replicate irq_handlers none; bitmap = b } in
    let start_valid : IsValid start = record { bitmap = valid; bits = bits; table = refl } in
    let (s, install, valid', reads, calls) =
      isr_handler-irq_install start 255 spurious start_valid (omega arith) (omega arith) in
    (
      s,
      rw (run, install),
      record {
        valid = valid';
        reads = λ w lo hi.
            first_reads w (taken s w) (marked b (w - 32)) lo (reads w lo)
              (clear (w - 32) (omega (arith, hi)));
      },
      calls,
    )

next-Given :
    (s : Irq) (k : ℕ)
    → k < 223
    → Given s k
    → (s' : Irq) × (irq_alloc_vector s ≡ done (32 + k, s')) × Given s' (suc k)
next-Given s k room g =
    let (v, s', run, valid, which) = irq_alloc_vector-Fresh s g.valid in
    let free : taken s (32 + k) ≡ false =
      g.reads (32 + k) (omega arith) (omega arith) ∙ free_vector k room in
    elim which [
      | inr (same, all_taken) ↦
          let used = all_taken (32 + k) (omega arith) (omega arith) in absurd (cc (used, free))
      | inl fresh ↦
          let v_free : (ltb v (32 + k) || v == 255) ≡ false =
            sym (g.reads v fresh.range.0 fresh.range.1) ∙ fresh.was_free in
          elim (Bool-cases (ltb (32 + k) v)) [
            | inl above ↦
                let used = fresh.lowest (32 + k) (omega arith) (ground arith) in
                absurd (cc (used, free))
            | inr not_above ↦
                let same : v ≡ 32 + k = ground arith in
                (
                  s',
                  rw same at run,
                  record {
                    valid = valid;
                    reads = λ w lo hi.
                        later_reads k w (taken s' w) (taken s w) (rw same at (fresh.reads w lo))
                          (g.reads w lo hi);
                  },
                )
          ]
    ]

-- `n` calls of `irqAllocVector`, with the results in order.
abbrev pub alloc_vectors : ℕ → Irq → Outcome (List ℕ × Irq)
alloc_vectors zero s = done ([], s)
alloc_vectors (suc n) s = do
  (v, s₁) ← irq_alloc_vector s
  (vs, s₂) ← alloc_vectors n s₁
  done (v ∷ vs, s₂)

abbrev pub range : ℕ → ℕ → List ℕ
range start zero = []
range start (suc n) = start ∷ range (start + 1) n

series-Given :
    (n k : ℕ) (s : Irq)
    → k + n ≤ 223
    → Given s k
    → (s' : Irq) × (alloc_vectors n s ≡ done (range (32 + k) n, s')) × Given s' (k + n)
series-Given zero k s room g = let k_zero : k + 0 ≡ k = omega arith in (s, refl, rw k_zero g)
series-Given (suc n) k s room g =
    let (s₁, run, g₁) = next-Given s k (omega (arith, room)) g in
    let k_suc : k + suc n ≡ suc k + n = omega arith in
    let start : 32 + k + 1 ≡ 32 + suc k = omega arith in
    let (s₂, runs, g₂) = series-Given n (suc k) s₁ (omega (arith, room)) g₁ in
    (s₂, rw (run, start, runs), rw k_suc g₂)

-- With room for the bitmap, `irqInit` installs the handler of spurious interrupts on vector 255. Up to 223
-- calls of `irqAllocVector` after it return the vectors from 32 on in order, each one once.
pub irq_init-irq_alloc_vector :
    (n : ℕ) (storage : List ℕ) (spurious : ℕ)
    → irq_handlers ≤ 64 * length storage
    → n ≤ 223
    → (s : Irq) × (s' : Irq) × (irq_init storage spurious ≡ done s)
      × (isr_handler s 255 ≡ done spurious)
      × (alloc_vectors n s ≡ done (range 32 n, s'))
      × Given s' n
irq_init-irq_alloc_vector n storage spurious room few =
    let (s, run, g, calls) = irq_init-Given storage spurious room in
    let (s', runs, g') = series-Given n 0 s (omega (arith, few)) g in
    let same : 0 + n ≡ n = omega arith in (s, s', run, calls, runs, rw same at g')
