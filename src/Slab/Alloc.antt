-- ===== src/Slab/Alloc.antt =====
-- Allocation from a valid cache.
use spctrx.Common.{
  ap, zero, ◌&&◌, suc, ◌∙◌, Outcome, panic, ℕ, ◌<◌, ◌≡◌, refl, ◌⊎◌, inl, inr, true, false, List, [],
  ◌∷◌, ◌++◌, done, arith, length, ne→==,
}
use spctrx.LinkedList.{first}
use spctrx.Slab.Defs.{slab_alloc, is_nil, slab_alloc_calls, SlabCache, Store}
use spctrx.Slab.Cache.{IsCache, Taken, give}
use spctrx.Slab.Take.{take_first-Taken}
use spctrx.Bitmap.{IsRun}
use spctrx.Slab.Make.{Made, make}

-- A cache as the code has it: the struct, with the lock free, and the invariant of its open slabs.
pub record Valid (hhdm : ℕ) (cache : SlabCache) (w : Store) (frees : ℕ → List ℕ) : Type 0 where
  pub unlocked : cache.lock ≡ false
  pub inv : IsCache hhdm cache.obj_size cache.obj_per_slab (cache.empty ++ cache.partial) w frees

-- What `slabAlloc` gives: a free object behind its first word, and a valid cache.
pub record Given (hhdm : ℕ) (cache : SlabCache) (w : Store) (frees : ℕ → List ℕ) (result : ℕ)
    (cache' : SlabCache) (w' : Store) (frees' : ℕ → List ℕ) : Type 0 where
  pub slab : ℕ
  pub taken :
      Taken hhdm cache.obj_size cache.obj_per_slab w frees slab result
        (cache'.empty ++ cache'.partial)
        w'
        frees'
  pub valid : Valid hhdm cache' w' frees'

abbrev pub AllocResult :
    ℕ → SlabCache → Store → (ℕ → List ℕ) → Outcome (ℕ × SlabCache × Store) → Type 0
AllocResult hhdm cache w frees run =
    ((result : ℕ) × (cache' : SlabCache) × (w' : Store) × (frees' : ℕ → List ℕ) × (run
        ≡ done (result, cache', w'))
      × Given hhdm cache w frees result cache' w' frees')
    ⊎ ((run ≡ panic) × (cache.empty ++ cache.partial ≡ []) × ((q : ℕ) → IsRun w.pmm.pages 1 q → ⊥))

pub is_nil-cons : (xs ys : List ℕ) → 0 < length (xs ++ ys) → (is_nil ys && is_nil xs) ≡ false
is_nil-cons [] [] h = absurd (omega arith)
is_nil-cons [] (y ∷ ys) h = refl
is_nil-cons (x ∷ xs) [] h = refl
is_nil-cons (x ∷ xs) (y ∷ ys) h = refl

-- A call that finds an open slab.
call_take :
    (calls hhdm : ℕ) (cache : SlabCache) (w : Store) (frees : ℕ → List ℕ)
    → Valid hhdm cache w frees
    → 0 < length (cache.empty ++ cache.partial)
    → (result : ℕ) × (cache' : SlabCache) × (w' : Store) × (frees' : ℕ → List ℕ) × (slab_alloc_calls
          (suc calls)
          hhdm
          cache
          w
        ≡ done (result, cache', w'))
      × Taken hhdm cache.obj_size cache.obj_per_slab w frees
          (first 0 (cache.empty ++ cache.partial))
          result
          (cache'.empty ++ cache'.partial)
          w'
          frees'
      × Valid hhdm cache' w' frees'
unfolding slab_alloc_calls
call_take calls hhdm cache w frees v some =
    let locked : SlabCache = record cache { lock = true } in
    let (result, cache', w', frees', run, taken, same_size, same_count) =
      take_first-Taken hhdm locked w frees cache.empty cache.partial refl refl some v.inv in
    (
      result,
      record cache' { lock = false },
      w',
      frees',
      rw (v.unlocked, is_nil-cons cache.empty cache.partial some, run),
      taken,
      record { unlocked = refl; inv = rw (same_size, same_count) taken.valid },
    )

append-nil_cases : (xs ys : List ℕ) → (0 < length (xs ++ ys)) ⊎ ((xs ≡ []) × (ys ≡ []))
append-nil_cases [] [] = inr (refl, refl)
append-nil_cases [] (y ∷ ys) = inl (omega arith)
append-nil_cases (x ∷ xs) ys = inl (omega arith)

-- An object of the new slab, as one that the cache did not have before.
from_new :
    (hhdm : ℕ) (cache cache₁ : SlabCache) (w w₁ : Store) (frees : ℕ → List ℕ) (slab : ℕ)
    (free : List ℕ) (result : ℕ) (open' : List ℕ) (w' : Store) (frees' : ℕ → List ℕ)
    → Made hhdm cache w frees cache₁ w₁ slab free
    → Taken hhdm cache.obj_size cache.obj_per_slab w₁
        (give frees slab free)
        slab
        result
        open'
        w'
        frees'
    → Taken hhdm cache.obj_size cache.obj_per_slab w frees slab result open' w' frees'
from_new hhdm cache cache₁ w w₁ frees slab free result open' w' frees' m t = record {
  object = t.object;
  at = t.at;
  place = t.place;
  source = inr (m.page, m.base, m.unused);
  gone = t.gone;
  others = λ q ne. t.others q ne ∙ rw (ne→== slab q ne);
  valid = t.valid;
}

retarget :
    {hhdm size size' count count' slab slab' result : ℕ} {w w' : Store} {frees frees' : ℕ → List ℕ}
    {open' : List ℕ}
    → size ≡ size'
    → count ≡ count'
    → slab ≡ slab'
    → Taken hhdm size count w frees slab result open' w' frees'
    → Taken hhdm size' count' w frees slab' result open' w' frees'
retarget es ec el t = rw (es, ec, el) at t

-- A call that has to make a slab first.
call_make :
    (hhdm : ℕ) (cache : SlabCache) (w : Store) (frees : ℕ → List ℕ)
    → Valid hhdm cache w frees
    → cache.empty ≡ []
    → cache.partial ≡ []
    → AllocResult hhdm cache w frees (slab_alloc_calls (suc (suc zero)) hhdm cache w)
unfolding slab_alloc_calls
call_make hhdm cache w frees v e p =
    let locked : SlabCache = record cache { lock = true } in
    let none_open : (is_nil cache.partial && is_nil cache.empty) ≡ true = rw (e, p) in
    let inv : IsCache hhdm cache.obj_size cache.obj_per_slab [] w frees = rw (e, p) at v.inv in
    elim (make hhdm locked w frees inv e p) [
      | inl (cache₁, w₁, slab, free, run, m) ↦
          let ready : SlabCache = record cache₁ { lock = false } in
          let whole : ready.empty ++ ready.partial ≡ slab ∷ [] = rw (m.empty, m.partial) in
          let valid : Valid hhdm ready w₁ (give frees slab free) = record {
            unlocked = refl;
            inv = rw (whole, m.same_size, m.same_count) m.inv;
          } in
          let (result, cache', w', frees', call, taken, valid') =
            call_take zero hhdm ready w₁ (give frees slab free) valid (rw whole (omega arith)) in
          inl (
            result,
            cache',
            w',
            frees',
            rw (v.unlocked, none_open, run) call,
            record {
              slab = slab;
              taken =
                  from_new hhdm locked cache₁ w w₁ frees slab free result
                    (cache'.empty ++ cache'.partial) w' frees' m
                    (retarget m.same_size m.same_count (ap (first 0) whole) taken);
              valid = valid';
            },
          )
      | inr (stop, none_free) ↦ inr (rw (v.unlocked, none_open, stop), rw (e, p), none_free)
    ]

-- From a valid cache `slabAlloc` returns an object behind its first word: one that an open slab had to
-- give, or one of a new slab in a page that was free. The object is given no more, the other slabs give
-- what they gave, and the cache stays valid, with its lock free. Only if no slab is open and no page is
-- free the kernel panics.
pub slab_alloc-Given :
    (hhdm : ℕ) (cache : SlabCache) (w : Store) (frees : ℕ → List ℕ)
    → Valid hhdm cache w frees
    → AllocResult hhdm cache w frees (slab_alloc hhdm cache w)
unfolding slab_alloc
slab_alloc-Given hhdm cache w frees v = elim (append-nil_cases cache.empty cache.partial) [
  | inl some ↦
      let (result, cache', w', frees', run, taken, valid) = call_take 1 hhdm cache w frees v some in
      inl (
        result,
        cache',
        w',
        frees',
        run,
        record { slab = first 0 (cache.empty ++ cache.partial); taken = taken; valid = valid },
      )
  | inr (e, p) ↦ call_make hhdm cache w frees v e p
]
