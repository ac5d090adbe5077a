-- ===== src/Slab/Take.antt =====
-- The first free object of the first slab is taken.
use spctrx.Common.{
  sym, Bool, ℕ, ◌+◌, ◌*◌, ◌^◌, ◌<◌, ◌≤◌, ◌≡◌, refl, inl, inr, true, false, List, [], ◌∷◌, ◌++◌,
  done, arith, length, ◌==◌, Bool-cases, if◌then◌else◌, ne→==, eq→==,
}
use spctrx.Common.Words.{page_size, u64}
use native.Mathlib.Nat.{le-mul_of_pos_right}
use spctrx.LinkedList.{first}
use spctrx.Slab.Defs.{SlabCache, Store, sizeof_slab, write_slab, pop, take_first}
use spctrx.Slab.Chain.{IsSlab, IsSlab-frame, object_in_page}
use spctrx.Slab.Cache.{HasFree, AllSlabs, AllSlabs-apart, IsCache, give, Taken}

-- The store after the first free object of a slab is taken.
abbrev popped : Store → ℕ → Store
popped w slab = record w { slabs = write_slab w.slabs slab (pop w slab) }

pop-IsSlab :
    (size count : ℕ) (w : Store) (slab x : ℕ) (free : List ℕ)
    → count < 2 ^ 64
    → IsSlab size count w slab (x ∷ free)
    → ((w.slabs slab).first_free ≡ x)
      × ((pop w slab).used_obj + length free ≡ count)
      × IsSlab size count (popped w slab) slab free
pop-IsSlab size count w slab x free small s =
    let used : (pop w slab).used_obj + length free ≡ count = omega (arith, s.counted) in
    let here = eq→== slab slab refl in
    (
      s.chain.0,
      used,
      record {
        begins = rw here s.begins;
        counted = rw here used;
        chain = rw (here, s.chain.0) s.chain.1;
        objects = s.objects.1;
        distinct = s.distinct.1;
      },
    )

pub count_small :
    (size count : ℕ) → 8 < size → sizeof_slab + count * size ≤ page_size → count < 2 ^ 64
count_small size count large room =
    omega (arith, le-mul_of_pos_right {m = size} count (omega arith))

-- The slabs that are not full afterwards.
abbrev pub open_after : ℕ → Store → ℕ → List ℕ → List ℕ
open_after count w slab rest = if (pop w slab).used_obj == count then rest else slab ∷ rest

module _ (hhdm size count slab : ℕ) (rest : List ℕ) (w : Store) (frees : ℕ → List ℕ) (x : ℕ)
    (xs : List ℕ) (c : IsCache hhdm size count (slab ∷ rest) w frees)
    (e : frees slab ≡ x ∷ xs) where
  taken_slab : IsSlab size count w slab (x ∷ xs)
  taken_slab = rw e at c.slabs.0.0

  popping :
      ((w.slabs slab).first_free ≡ x)
      × ((pop w slab).used_obj + length xs ≡ count)
      × IsSlab size count (popped w slab) slab xs
  popping = pop-IsSlab size count w slab x xs (count_small size count c.large c.room) taken_slab

  rest_slabs : AllSlabs (HasFree size count (popped w slab) (give frees slab xs)) rest
  rest_slabs =
      AllSlabs-apart (HasFree size count w frees)
        (HasFree size count (popped w slab) (give frees slab xs)) slab rest
        (λ q ne h. rw (ne→== slab q ne) (
          IsSlab-frame size count w (popped w slab) q (frees q) (omega (arith, c.large)) c.room
              (rw (ne→== slab q ne)) (λ a lo hi. refl) h.0,
          h.1,
        ))
        c.distinct.0 c.slabs.1

  after-IsCache :
      IsCache hhdm size count (open_after count w slab rest) (popped w slab) (give frees slab xs)
  after-IsCache = elim (Bool-cases ((pop w slab).used_obj == count)) [
    | inl full ↦ rw full (record {
      pmm = c.pmm;
      mapped = c.mapped;
      room = c.room;
      some = c.some;
      large = c.large;
      slabs = rest_slabs;
      pages = c.pages.1;
      distinct = c.distinct.1;
    })
    | inr more ↦
        let left : 0 < length xs = ground (arith, popping.1) in
        let first : HasFree size count (popped w slab) (give frees slab xs) slab =
          rw (eq→== slab slab refl) (popping.2, left) in
        rw more (record {
          pmm = c.pmm;
          mapped = c.mapped;
          room = c.room;
          some = c.some;
          large = c.large;
          slabs = (first, rest_slabs);
          pages = c.pages;
          distinct = c.distinct;
        })
  ]

  pop-Taken :
      Taken hhdm size count w frees slab
        (u64 ((w.slabs slab).first_free + 8))
        (open_after count w slab rest)
        (popped w slab)
        (give frees slab xs)
  pop-Taken =
      let place = taken_slab.objects.0 in
      let (lo, hi) = object_in_page size count slab x (omega (arith, c.large)) c.room place in
      let (page, inside, base, used) = c.pages.0 in
      record {
        object = x;
        at = omega (arith, popping.0, c.mapped, c.large);
        place = place;
        source = inl (rw (eq→== slab slab refl) e);
        gone = rw (eq→== slab slab refl) taken_slab.distinct.0;
        others = λ q ne. rw (ne→== slab q ne);
        valid = after-IsCache;
      }

abbrev pub TakeResult : ℕ → SlabCache → Store → (ℕ → List ℕ) → List ℕ → List ℕ → Type 0
TakeResult hhdm cache w frees empty partial =
    (result : ℕ) × (cache' : SlabCache) × (w' : Store) × (frees' : ℕ → List ℕ) × (take_first cache w
        empty partial
      ≡ done (result, cache', w'))
    × Taken hhdm cache.obj_size cache.obj_per_slab w frees (first 0 (empty ++ partial)) result
        (cache'.empty ++ cache'.partial) w' frees'
    × (cache'.obj_size ≡ cache.obj_size)
    × (cache'.obj_per_slab ≡ cache.obj_per_slab)

first_of : (xs : List ℕ) → 0 < length xs → (x : ℕ) × (xs' : List ℕ) × (xs ≡ x ∷ xs')
first_of [] h = absurd (omega arith)
first_of (x ∷ xs) h = (x, xs, refl)

-- A fact about both results of a test.
either {ℓ} : {A : Type 0} (P : A → Type ℓ) (b : Bool) (x y : A) → P x → P y → P (if b then x else y)
either P true x y hx hy = hx
either P false x y hx hy = hy

open_cases :
    (b : Bool) (x y : SlabCache) (more less : List ℕ)
    → x.empty ++ x.partial ≡ less
    → y.empty ++ y.partial ≡ more
    → (if b then less else more) ≡ (if b then x else y).empty ++ (if b then x else y).partial
open_cases true x y more less ex ey = sym ex
open_cases false x y more less ex ey = sym ey

-- The result of the pop, for the cache that the test leaves.
pop-TakeResult :
    (hhdm : ℕ) (cache x y : SlabCache) (w : Store) (frees : ℕ → List ℕ) (slab : ℕ) (rest : List ℕ)
    → IsCache hhdm cache.obj_size cache.obj_per_slab (slab ∷ rest) w frees
    → x.empty ++ x.partial ≡ rest
    → y.empty ++ y.partial ≡ slab ∷ rest
    → let b = (pop w slab).used_obj == cache.obj_per_slab in
      (frees' : ℕ → List ℕ) × Taken hhdm cache.obj_size cache.obj_per_slab w frees slab
        (u64 ((w.slabs slab).first_free + 8))
        ((if b then x else y).empty ++ (if b then x else y).partial)
        (popped w slab)
        frees'
pop-TakeResult hhdm cache x y w frees slab rest c ex ey =
    let (o, os, e) = first_of (frees slab) c.slabs.0.1 in
    let taken = pop-Taken hhdm cache.obj_size cache.obj_per_slab slab rest w frees o os c e in
    (
      give frees slab os,
      rw (open_cases ((pop w slab).used_obj == cache.obj_per_slab) x y (slab ∷ rest) rest ex ey) at
          taken,
    )

pub take_first-Taken :
    (hhdm : ℕ) (cache : SlabCache) (w : Store) (frees : ℕ → List ℕ) (empty partial : List ℕ)
    → cache.empty ≡ empty
    → cache.partial ≡ partial
    → 0 < length (empty ++ partial)
    → IsCache hhdm cache.obj_size cache.obj_per_slab (empty ++ partial) w frees
    → TakeResult hhdm cache w frees empty partial
unfolding take_first
take_first-Taken hhdm cache w frees [] [] ee ep some c = absurd (omega arith)
take_first-Taken hhdm cache w frees [] (slab ∷ rest) ee ep some c =
    let moved = record cache { partial = rest; full = slab ∷ cache.full } in
    let b = (pop w slab).used_obj == cache.obj_per_slab in
    let whole : cache.empty ++ cache.partial ≡ slab ∷ rest = rw (ee, ep) in
    let (frees', taken) = pop-TakeResult hhdm cache moved cache w frees slab rest c (rw ee) whole in
    (
      u64 ((w.slabs slab).first_free + 8),
      (if b then moved else cache),
      popped w slab,
      frees',
      refl,
      taken,
      either (λ (d : SlabCache). d.obj_size ≡ cache.obj_size) b moved cache refl refl,
      either (λ (d : SlabCache). d.obj_per_slab ≡ cache.obj_per_slab) b moved cache refl refl,
    )
take_first-Taken hhdm cache w frees (slab ∷ rest) partial ee ep some c =
    let moved = record cache { empty = rest; full = slab ∷ cache.full } in
    let b = (pop w slab).used_obj == cache.obj_per_slab in
    let whole : cache.empty ++ cache.partial ≡ slab ∷ (rest ++ partial) = rw (ee, ep) in
    let (frees', taken) =
      pop-TakeResult hhdm cache moved cache w frees slab (rest ++ partial) c (rw ep) whole in
    (
      u64 ((w.slabs slab).first_free + 8),
      (if b then moved else cache),
      popped w slab,
      frees',
      refl,
      taken,
      either (λ (d : SlabCache). d.obj_size ≡ cache.obj_size) b moved cache refl refl,
      either (λ (d : SlabCache). d.obj_per_slab ≡ cache.obj_per_slab) b moved cache refl refl,
    )
