-- ===== src/Slab/Free.antt =====
-- Making a cache, and what freeing does to the addresses.
use spctrx.Common.{
  eq→==, inr, inl, ◌∙◌, if◌then◌else◌, ◌>>=◌, Outcome, ◌⊎◌, ◌&&◌, true, ◌||◌, ne→==, ◌==◌, ℕ, ◌+◌,
  ◌-◌, ◌*◌, ◌/◌, ◌^◌, ◌<◌, ◌≤◌, ◌≡◌, refl, false, List, [], ◌∷◌, ◌++◌, done, arith, length, lt→ltb,
  le→leb, take, replicate,
}
use mathlib.Core.Bool.{Bool, false≢true}
use native.Mathlib.Nat.{div-mul-le_self, le-div_iff_mul-le}
use spctrx.Common.Words.{sub64, page_size, u64, align_up, align_down}
use spctrx.Common.Bits.{bit_and_high}
use spctrx.Memory.Cstring.{IsText, strncpy_lem}
use spctrx.Pmm
use spctrx.Pmm.{Pmm}
use spctrx.Slab.Defs.{
  erase, is_nil, take_first, member, slab_alloc_calls, slab_alloc, slab_free, SlabCache, Store,
  sizeof_slab, slab_init_cache,
}
use spctrx.Slab.Alloc.{is_nil-cons, Valid}

align_up_eight : (n : ℕ) → n < 2 ^ 63 → align_up n 8 ≡ (n + 7) / 8 * 8
unfolding align_up
align_up_eight n h =
    let plain : u64 (n + (8 - 1)) ≡ n + 7 = omega arith in
    rw plain (bit_and_high 64 3 (n + 7) (omega arith) (omega arith))

align_down_page : (n : ℕ) → n < 2 ^ 64 → align_down n page_size ≡ n / page_size * page_size
unfolding align_down
align_down_page n h = bit_and_high 64 12 n (omega arith) h

-- `slabInitCache` of a size from 1 to 4048 makes a cache that is valid with any valid page allocator whose
-- pages are mapped. Its objects have room for the size and the word in front.
pub slab_init_cache-Valid :
    (hhdm : ℕ) (name rest old behind : List ℕ) (obj_size : ℕ) (w : Store) (frees : ℕ → List ℕ)
    → 0 < obj_size
    → obj_size ≤ 4048
    → IsText name
    → length old ≡ 64
    → Pmm.IsValid w.pmm
    → w.pmm.pages.bits * page_size + hhdm ≤ 2 ^ 64
    → (cache : SlabCache) × (slab_init_cache (old ++ behind) (name ++ 0 ∷ rest) obj_size
        ≡ done cache)
      × Valid hhdm cache w frees
      × (obj_size + 8 ≤ cache.obj_size)
unfolding slab_init_cache
slab_init_cache-Valid hhdm name rest old behind obj_size w frees pos hi text sized pmm mapped =
    let size : ℕ = (obj_size + 7) / 8 * 8 + 8 in
    let count : ℕ = (page_size - sizeof_slab) / size in
    let e : u64 (align_up obj_size 8 + 8) ≡ size =
      rw (align_up_eight obj_size (omega arith)) (omega arith) in
    let size_pos : 0 < size = omega arith in
    let one : 1 ≤ count =
      (le-div_iff_mul-le {k = size} {x = 1} {y = page_size - sizeof_slab} size_pos).1
        (omega arith) in
    let not_zero : (size == 0) ≡ false = ne→== size 0 (λ q. omega (arith, q)) in
    let fits : count * size ≤ page_size - sizeof_slab =
      div-mul-le_self (page_size - sizeof_slab) size in
    (
      record {
        name = take 64 name ++ (replicate (64 - length name) 0 ++ behind);
        full = [];
        partial = [];
        empty = [];
        obj_size = size;
        obj_per_slab = count;
        lock = false;
      },
      rw (
        lt→ltb 0 obj_size pos,
        e,
        strncpy_lem name rest old behind 64 text sized,
        not_zero,
        le→leb 1 count one,
      ),
      record {
        unlocked = refl;
        inv = record {
          pmm = pmm;
          mapped = mapped;
          room = omega arith;
          some = one;
          large = omega arith;
          slabs = tt;
          pages = tt;
          distinct = tt;
        };
      },
      omega arith,
    )

-- The address that a run of `slabAlloc` returns.
abbrev returned : Outcome (ℕ × SlabCache × Store) → Outcome ℕ
returned run = do (addr, _, _) ← run; done addr

-- An allocation when the slab is the first one it looks at.
front_of_empty :
    (hhdm : ℕ) (cache : SlabCache) (w : Store) (slab : ℕ) (rest : List ℕ)
    → cache.lock ≡ false
    → cache.empty ≡ slab ∷ rest
    → returned (slab_alloc hhdm cache w) ≡ done (u64 ((w.slabs slab).first_free + 8))
unfolding slab_alloc slab_alloc_calls take_first
front_of_empty hhdm cache w slab rest free e =
    let open_slab : (is_nil cache.partial && is_nil cache.empty) ≡ false =
      is_nil-cons cache.empty cache.partial (rw e (omega arith)) in
    rw (free, open_slab, e)

front_of_partial :
    (hhdm : ℕ) (cache : SlabCache) (w : Store) (slab : ℕ) (rest : List ℕ)
    → cache.lock ≡ false
    → cache.empty ≡ []
    → cache.partial ≡ slab ∷ rest
    → returned (slab_alloc hhdm cache w) ≡ done (u64 ((w.slabs slab).first_free + 8))
unfolding slab_alloc slab_alloc_calls take_first
front_of_partial hhdm cache w slab rest free e p =
    let open_slab : (is_nil cache.partial && is_nil cache.empty) ≡ false =
      is_nil-cons cache.empty cache.partial (rw (e, p) (omega arith)) in
    rw (free, open_slab, e, p)

-- An allocation behind a `slabFree`, with `b` for whether the slab has no object in use any more.
front_after_free :
    (hhdm : ℕ) (b : Bool) (cache : SlabCache) (w : Store) (slab addr : ℕ) (empty partial : List ℕ)
    → cache.lock ≡ false
    → cache.empty ≡ (if b then slab ∷ empty else empty)
    → cache.partial ≡ (if b then partial else slab ∷ partial)
    → (b ≡ true) ⊎ (empty ≡ [])
    → (w.slabs slab).first_free ≡ addr
    → returned (slab_alloc hhdm cache w) ≡ done (u64 (addr + 8))
front_after_free hhdm true cache w slab addr empty partial free e p looked at =
    front_of_empty hhdm cache w slab empty free e ∙ rw at
front_after_free hhdm false cache w slab addr empty partial free e p (inl differs) at =
    absurd (false≢true differs)
front_after_free hhdm false cache w slab addr empty partial free e p (inr none) at =
    front_of_partial hhdm cache w slab partial free (e ∙ none) p ∙ rw at

-- The call of `slabFree` and then of `slabAlloc`: the address that comes back.
abbrev pub free_then_alloc : ℕ → SlabCache → Store → ℕ → Outcome ℕ
free_then_alloc hhdm cache w addr = do
  (cache₁, w₁) ← slab_free cache w addr
  returned (slab_alloc hhdm cache₁ w₁)

-- The object that `slabFree` gets back at `addr` is what the next `slabAlloc` hands out when it looks at
-- that slab first, but eight bytes further on: with an open lock, an address other than null, its slab in
-- one of the lists, and either no other object of the slab in use or no slab in the empty list.
pub slab_alloc-slab_free :
    (hhdm : ℕ) (cache : SlabCache) (w : Store) (addr : ℕ)
    → cache.lock ≡ false
    → 0 < addr
    → (member (align_down addr page_size) cache.full
        || member (align_down addr page_size) cache.partial
        || member (align_down addr page_size) cache.empty)
      ≡ true
    → ((w.slabs (align_down addr page_size)).used_obj ≡ 1) ⊎ (cache.empty ≡ [])
    → free_then_alloc hhdm cache w addr ≡ done (u64 (addr + 8))
unfolding slab_free
slab_alloc-slab_free hhdm cache w addr free pos known first_looked =
    let slab : ℕ = align_down addr page_size in
    let looked : ((sub64 (w.slabs slab).used_obj 1 == 0) ≡ true) ⊎ (erase slab cache.empty ≡ []) =
      elim first_looked [ inl one ↦ inl (rw one refl) | inr none ↦ inr (rw none refl) ] in
    rw (ne→== addr 0 (λ q. omega (arith, q)), free, known)
      (front_after_free hhdm (sub64 (w.slabs slab).used_obj 1 == 0) _ _ slab addr
        (erase slab cache.empty) (erase slab cache.partial) refl refl refl looked
        (rw (eq→== slab slab refl)))
