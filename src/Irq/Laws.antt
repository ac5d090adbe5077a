-- ===== src/Irq/Laws.antt =====
-- Vectors are given out once while there are free ones, and handlers are found again.
use spctrx.Common.{
  ℕ, ◌+◌, ◌-◌, ◌<◌, ◌≤◌, ◌≡◌, ◌⊎◌, ◌∙◌, Bool, true, false, inl, inr, none, some, done, fault, arith,
  ltb, ◌==◌, if◌then◌else◌, length, get_elem?, set, lt→ltb, Bool-cases, length-set,
  get_elem?-set_self,
}
use spctrx.Bitmap
use spctrx.Bitmap.{
  Bitmap, marked, bitmap_find, bitmap_set, IsRun, Found, first, nothing, bitmap_find-Found,
  bitmap_set-Written, Written,
}
use spctrx.Irq.Defs.{Irq, irq_handlers, irq_alloc_vector, irq_install, isr_handler}

pub record IsValid (s : Irq) : Type 0 where
  pub bitmap : Bitmap.IsValid s.bitmap
  pub bits : s.bitmap.bits ≡ irq_handlers
  pub table : length s.handlers ≡ irq_handlers

-- Vector `v` is given out or has a handler.
abbrev pub taken : Irq → ℕ → Bool
taken s v = marked s.bitmap (v - 32)

-- The result is a vector that was free, the lowest one, and is taken afterwards.
pub record Fresh (s : Irq) (v : ℕ) (s' : Irq) : Type 0 where
  pub range : (32 ≤ v) × (v < 256)
  pub was_free : taken s v ≡ false
  pub lowest : (w : ℕ) → 32 ≤ w → w < v → taken s w ≡ true
  pub reads : (w : ℕ) → 32 ≤ w → taken s' w ≡ (if v == w then true else taken s w)

module _ (s : Irq) (val : IsValid s) where
  abbrev Result : Type 0
  Result =
      (v : ℕ) × (s' : Irq) × (irq_alloc_vector s ≡ done (v, s'))
      × IsValid s'
      × (Fresh s v s' ⊎ ((v ≡ 32) × ((w : ℕ) → 32 ≤ w → w < 256 → taken s w ≡ true)))

  -- A position that is not the start of a free run of one is marked.
  marked_of_no_run :
      (q : ℕ) → q < s.bitmap.bits → (IsRun s.bitmap 1 q → ⊥) → marked s.bitmap q ≡ true
  marked_of_no_run q h none_here = elim (Bool-cases (marked s.bitmap q)) [
    | inl used ↦ used
    | inr free ↦
        let run : IsRun s.bitmap 1 q = record {
          inside = omega arith;
          free = λ p lo hi. let same : p ≡ q = omega arith in rw same free;
        } in
        absurd (none_here run)
  ]

  IsValid-Written :
      (r : ℕ) (b : Bitmap) → Written s.bitmap r true b → IsValid (record s { bitmap = b })
  IsValid-Written r b w = record {
    bitmap = w.valid;
    bits = w.same_bits ∙ val.bits;
    table = val.table;
  }

  after_search : {r : ℕ} → Found s.bitmap 1 r → bitmap_find s.bitmap 1 ≡ done r → Result
  unfolding irq_alloc_vector
  after_search {r} (first run least) e =
      let (b, set_r, w) =
        bitmap_set-Written s.bitmap val.bitmap r (omega (arith, run.inside)) true in
      (
        r + 32,
        record s { bitmap = b },
        rw (e, set_r),
        IsValid-Written r b w,
        inl (record {
          range = omega (arith, run.inside, val.bits);
          was_free =
              let q : r + 32 - 32 ≡ r = omega arith in
              rw q (run.free r (omega arith) (omega arith));
          lowest = λ v lo hi.
              marked_of_no_run (v - 32) (omega (arith, run.inside))
                (λ run'. let le = least (v - 32) run' in omega arith);
          reads = λ v lo. ground (arith, w.reads (v - 32));
        }),
      )
  after_search {r} (nothing zero full) e =
      let (b, set_r, w) = bitmap_set-Written s.bitmap val.bitmap r (omega (arith, val.bits)) true in
      let v : r + 32 ≡ 32 = omega arith in
      (
        r + 32,
        record s { bitmap = b },
        rw (e, set_r),
        IsValid-Written r b w,
        inr (v, λ v lo hi. marked_of_no_run (v - 32) (omega (arith, val.bits)) (full (v - 32))),
      )

-- On a valid state `irqAllocVector` returns. While a vector is free, the result is the lowest free one, and exactly it
-- becomes taken; when all 224 are taken, the result is vector 32, which somebody has already.
pub irq_alloc_vector-Fresh :
    (s : Irq)
    → IsValid s
    → (v : ℕ) × (s' : Irq) × (irq_alloc_vector s ≡ done (v, s'))
      × IsValid s'
      × (Fresh s v s' ⊎ ((v ≡ 32) × ((w : ℕ) → 32 ≤ w → w < 256 → taken s w ≡ true)))
irq_alloc_vector-Fresh s val =
    let (r, e, found) = bitmap_find-Found s.bitmap 1 val.bitmap (omega arith) in
    after_search s val found e

-- After `irqInstall` of a handler for a vector from 32 to 255 that vector is taken and no other has
-- become so, and an interrupt on it calls that handler.
pub isr_handler-irq_install :
    (s : Irq) (v handler : ℕ)
    → IsValid s
    → 32 ≤ v
    → v < 256
    → (s' : Irq) × (irq_install s v handler ≡ done s')
      × IsValid s'
      × ((w : ℕ) → 32 ≤ w → taken s' w ≡ (if v == w then true else taken s w))
      × (isr_handler s' v ≡ done handler)
unfolding irq_install isr_handler
isr_handler-irq_install s v handler val lo hi =
    let (b, set_v, w) =
      bitmap_set-Written s.bitmap val.bitmap (v - 32) (omega (arith, val.bits)) true in
    let low : ltb v 32 ≡ false = ground arith in
    let inside : v - 32 < length s.handlers = omega (arith, val.table) in
    (
      record { handlers = set s.handlers (v - 32) (some handler); bitmap = b },
      rw (low, lt→ltb (v - 32) (length s.handlers) inside, set_v),
      record {
        bitmap = w.valid;
        bits = w.same_bits ∙ val.bits;
        table = length-set s.handlers (v - 32) (some handler) ∙ val.table;
      },
      λ u above. ground (arith, w.reads (u - 32)),
      rw (low, get_elem?-set_self s.handlers (v - 32) (some handler) inside),
    )

-- An interrupt on a vector that has no handler calls a null pointer.
pub isr_handler-fault :
    (s : Irq) (v : ℕ) → 32 ≤ v → get_elem? s.handlers (v - 32) ≡ some none → isr_handler s v ≡ fault
unfolding isr_handler
isr_handler-fault s v lo e = let low : ltb v 32 ≡ false = ground arith in rw (low, e)
