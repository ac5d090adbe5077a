-- ===== src/Slab/Make.antt =====
-- A new slab for a cache that has none open.
use spctrx.Common.{
  ◌-◌, panic, ℕ, ◌+◌, ◌*◌, ◌<◌, ◌≡◌, refl, ◌⊎◌, inl, inr, false, List, [], ◌∷◌, done, arith, length,
  eq→==,
}
use spctrx.Common.Words.{sub64, page_size, u64}
use spctrx.Pmm.{Pmm, pmm_alloc, in_use, Allocated, pmm_alloc-Allocated}
use spctrx.Slab.Defs.{link_loop, Slab, slab_alloc_slab, SlabCache, Store, sizeof_slab, write_slab}
use spctrx.Slab.Chain.{length-object_list, fresh-IsSlab, object_list, IsSlab}
use spctrx.Slab.Cache.{IsCache, give}
use spctrx.Slab.Take.{count_small}
use spctrx.Bitmap.{IsRun}

-- What making a slab leaves, for a cache that has none open.
pub record Made (hhdm : ℕ) (cache : SlabCache) (w : Store) (frees : ℕ → List ℕ) (cache' : SlabCache)
    (w' : Store) (slab : ℕ) (free : List ℕ) : Type 0 where
  pub page : ℕ
  pub base : slab ≡ page * page_size + hhdm
  pub unused : in_use w.pmm page ≡ false
  pub empty : cache'.empty ≡ slab ∷ []
  pub partial : cache'.partial ≡ []
  pub same_size : cache'.obj_size ≡ cache.obj_size
  pub same_count : cache'.obj_per_slab ≡ cache.obj_per_slab
  pub inv : IsCache hhdm cache.obj_size cache.obj_per_slab (slab ∷ []) w' (give frees slab free)

module _ (hhdm : ℕ) (cache : SlabCache) (w : Store) (frees : ℕ → List ℕ)
    (c : IsCache hhdm cache.obj_size cache.obj_per_slab [] w frees) (e : cache.empty ≡ [])
    (p : cache.partial ≡ []) where
  abbrev pub MakeResult : Type 0
  MakeResult =
      ((cache' : SlabCache) × (w' : Store) × (slab : ℕ) × (free : List ℕ) × (slab_alloc_slab hhdm
            cache w
          ≡ done (cache', w'))
        × Made hhdm cache w frees cache' w' slab free)
      ⊎ ((slab_alloc_slab hhdm cache w ≡ panic) × ((q : ℕ) → IsRun w.pmm.pages 1 q → ⊥))

  new_slab :
      (addr : ℕ) (pmm : Pmm)
      → pmm_alloc w.pmm 1 ≡ done (addr, pmm)
      → Allocated w.pmm 1 addr pmm
      → MakeResult
  unfolding slab_alloc_slab
  new_slab addr pmm run a =
      let slab : ℕ = a.page * page_size + hhdm in
      let at : u64 (addr + hhdm) ≡ slab = omega (arith, a.address, a.run.inside, c.mapped) in
      let rounds : sub64 cache.obj_per_slab 1 ≡ cache.obj_per_slab - 1 =
        omega (arith, c.some, count_small cache.obj_size cache.obj_per_slab c.large c.room) in
      let header : Slab = record {
        start = slab + sizeof_slab;
        first_free = slab + sizeof_slab;
        used_obj = 0;
      } in
      let w' : Store = record {
        slabs = write_slab w.slabs slab header;
        words = link_loop (cache.obj_per_slab - 1) cache.obj_size (slab + sizeof_slab) w.words;
        pmm = pmm;
      } in
      let free : List ℕ = object_list cache.obj_size cache.obj_per_slab (slab + sizeof_slab) in
      let here = eq→== slab slab refl in
      let fresh : IsSlab cache.obj_size cache.obj_per_slab w' slab free =
        fresh-IsSlab cache.obj_size cache.obj_per_slab slab w' w.words (omega (arith, c.large))
          c.some (rw here) refl in
      let some_free : 0 < length free = omega (
        arith,
        c.some,
        length-object_list cache.obj_size cache.obj_per_slab (slab + sizeof_slab),
      ) in
      inl (
        record cache { empty = slab ∷ [] },
        w',
        slab,
        free,
        rw (run, at, rounds, e),
        record {
          page = a.page;
          base = refl;
          unused = a.run.free a.page (omega arith) (omega arith);
          empty = refl;
          partial = p;
          same_size = refl;
          same_count = refl;
          inv = record {
            pmm = a.change.valid;
            mapped = omega (arith, c.mapped, a.change.same_bits);
            room = c.room;
            some = c.some;
            large = c.large;
            slabs = (rw here (fresh, some_free), tt);
            pages = (
              (
                a.page,
                omega (arith, a.run.inside, a.change.same_bits),
                refl,
                ground (arith, a.change.reads a.page),
              ),
              tt,
            );
            distinct = (tt, tt);
          };
        },
      )

  pub make : MakeResult
  unfolding slab_alloc_slab
  make = elim (pmm_alloc-Allocated w.pmm 1 c.pmm (omega arith)) [
    | inl (addr, pmm, run, a) ↦ new_slab addr pmm run a
    | inr (stop, none_free) ↦ inr (rw stop, none_free)
  ]
