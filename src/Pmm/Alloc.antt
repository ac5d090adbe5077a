-- ===== src/Pmm/Alloc.antt =====
-- `pmmAlloc` and `pmmFree` against the set of pages in use.
use spctrx.Common.{
  ℕ, ◌+◌, ◌*◌, ◌/◌, ◌^◌, ◌<◌, ◌≤◌, ◌≡◌, refl, Bool, true, false, ◌&&◌, ◌⊎◌, inl, inr, done, panic,
  arith, ltb, leb, ◌==◌, if◌then◌else◌, Bool-cases, lt→ltb, ne→==, eq→==,
}
use mathlib.Core.Path.{subst₂}
use spctrx.Common.Words.{u64, page_size}
use spctrx.Bitmap
use spctrx.Bitmap.{
  Bitmap, marked, bitmap_find, bitmap_fill, IsRun, Found, first, nothing, bitmap_find-Found, Filled,
  bitmap_fill-Filled,
}
use spctrx.Pmm.Defs.{Pmm, pmm_alloc, pmm_free}

-- The bitmap is valid, page 0 is reserved, every page has a 64-bit address, the lock is free.
pub record IsValid (s : Pmm) : Type 0 where
  pub bitmap : Bitmap.IsValid s.pages
  pub zero_reserved : marked s.pages 0 ≡ true
  pub nonempty : 0 < s.pages.bits
  pub addressable : s.pages.bits < 2 ^ 52
  pub unlocked : s.lock ≡ false

abbrev pub in_use : Pmm → ℕ → Bool
in_use s page = marked s.pages page

-- The pages from `page` on, `n` of them, become `value`; all others stay as they are.
pub record Changed (s : Pmm) (page n : ℕ) (value : Bool) (s' : Pmm) : Type 0 where
  pub valid : IsValid s'
  pub same_bits : s'.pages.bits ≡ s.pages.bits
  pub reads : (q : ℕ) → in_use s' q ≡ (if leb page q && ltb q (page + n) then value else in_use s q)

-- What a call that returns has allocated: a run of `n` free pages, the first one, page 0 excluded.
pub record Allocated (s : Pmm) (n addr : ℕ) (s' : Pmm) : Type 0 where
  pub page : ℕ
  pub address : addr ≡ page * page_size
  pub positive : 0 < page
  pub run : IsRun s.pages n page
  pub least : (p : ℕ) → IsRun s.pages n p → page ≤ p
  pub change : Changed s page n true s'

module _ (s : Pmm) (v : IsValid s) (n : ℕ) (pos : 0 < n) where
  fill_found :
      (page : ℕ) (value : Bool)
      → 0 < page
      → page + n ≤ s.pages.bits
      → (b : Bitmap) × (bitmap_fill s.pages page (u64 (page + n)) value ≡ done b)
        × Changed s page n value (record { pages = b; lock = false })
  fill_found page value p h =
      let (b, e, f) = bitmap_fill-Filled s.pages page (page + n) value v.bitmap (omega arith) h in
      let small : u64 (page + n) ≡ page + n = omega (arith, v.addressable) in
      (
        b,
        rw small e,
        record {
          valid = record {
            bitmap = f.valid;
            zero_reserved = ground (arith, f.reads 0, v.zero_reserved);
            nonempty = omega (arith, f.same_bits, v.nonempty);
            addressable = omega (arith, f.same_bits, v.addressable);
            unlocked = refl;
          };
          same_bits = f.same_bits;
          reads = f.reads;
        },
      )

  not_run_zero : IsRun s.pages n 0 → ⊥
  not_run_zero run = let c = run.free 0 (omega arith) (omega arith) in cc (v.zero_reserved, c)

  Result : Type 0
  Result =
      ((addr : ℕ) × (s' : Pmm) × (pmm_alloc s n ≡ done (addr, s')) × Allocated s n addr s')
      ⊎ ((pmm_alloc s n ≡ panic) × ((p : ℕ) → IsRun s.pages n p → ⊥))

  after_search : {r : ℕ} → Found s.pages n r → bitmap_find s.pages n ≡ done r → Result
  unfolding Result pmm_alloc
  after_search {r} (first run least) e =
      let p : 0 < r = elim (Bool-cases (r == 0)) [
        | inl zero ↦ let z : r ≡ 0 = ground arith in absurd (not_run_zero (rw z at run))
        | inr more ↦ ground arith
      ] in
      let (b, filled, change) = fill_found r true p run.inside in
      let address : u64 (r * page_size) ≡ r * page_size =
        omega (arith, run.inside, v.addressable) in
      inl (
        r * page_size,
        record { pages = b; lock = false },
        rw (lt→ltb 0 n pos, v.unlocked, e, ne→== r 0 (omega arith), filled, address),
        record {
          page = r;
          address = refl;
          positive = p;
          run = run;
          least = least;
          change = change;
        },
      )
  after_search (nothing zero none) e =
      inr (rw (lt→ltb 0 n pos, v.unlocked, e, eq→== _ 0 zero), none)

-- On a valid allocator with the lock free, `pmmAlloc` of a positive number of pages either returns
-- the address of the first run of that many free pages, never page 0, marks exactly those pages as
-- used and leaves the allocator valid with the lock free, or there is no such run and it panics.
pub pmm_alloc-Allocated :
    (s : Pmm) (n : ℕ)
    → IsValid s
    → 0 < n
    → ((addr : ℕ) × (s' : Pmm) × (pmm_alloc s n ≡ done (addr, s')) × Allocated s n addr s')
      ⊎ ((pmm_alloc s n ≡ panic) × ((p : ℕ) → IsRun s.pages n p → ⊥))
unfolding Result
pmm_alloc-Allocated s n v pos =
    let (r, e, found) = bitmap_find-Found s.pages n v.bitmap pos in after_search s v n pos found e

-- `pmmFree` of pages inside the bitmap, the first one not page 0, returns; it marks exactly those
-- pages as free and leaves the allocator valid with the lock free.
pub pmm_free-Changed :
    (s : Pmm) (page n : ℕ)
    → IsValid s
    → 0 < page
    → 0 < n
    → page + n ≤ s.pages.bits
    → (s' : Pmm) × (pmm_free s (page * page_size) n ≡ done s') × Changed s page n false s'
unfolding pmm_free
pmm_free-Changed s page n v p pos h =
    let (b, e, change) = fill_found s v n pos page false p h in
    let same : page * page_size / page_size ≡ page = omega arith in
    (
      record { pages = b; lock = false },
      rw (ne→== (page * page_size) 0 (omega arith), lt→ltb 0 n pos, v.unlocked, same, e),
      change,
    )

-- What `pmmAlloc` has taken `pmmFree` gives back: the call returns, the allocator is valid, and every
-- page is in use exactly if it was before the allocation.
pub pmm_free-pmm_alloc :
    (s t : Pmm) (n addr : ℕ)
    → IsValid s
    → 0 < n
    → pmm_alloc s n ≡ done (addr, t)
    → (u : Pmm) × (pmm_free t addr n ≡ done u) × IsValid u × ((q : ℕ) → in_use u q ≡ in_use s q)
pmm_free-pmm_alloc s t n addr v pos e = elim (pmm_alloc-Allocated s n v pos) [
  | inl (a, s', e', got) ↦
      let eq_a : a ≡ addr = cc in
      let eq_s : s' ≡ t = cc in
      let got' : Allocated s n addr t =
        subst₂ (λ (a : ℕ) (s' : Pmm). Allocated s n a s') eq_a eq_s got in
      given_back got'
  | inr (stop, none) ↦ cc
]
  where
    given_back :
        Allocated s n addr t
        → (u : Pmm) × (pmm_free t addr n ≡ done u) × IsValid u × ((q : ℕ) → in_use u q ≡ in_use s q)
    given_back got =
        let c = got.change in
        let (u, e', d) =
          pmm_free-Changed t got.page n c.valid got.positive pos
            (omega (arith, c.same_bits, got.run.inside)) in
        (u, rw got.address e', d.valid, λ q. ground (arith, d.reads q, c.reads q, got.run.free q))
