-- ===== src/Tests/Slabs.antt =====
-- The slab allocator at small inputs.
use spctrx.Common.{ℕ, ◌+◌, ◌≤◌, ◌≡◌, refl, false, List, [], ◌∷◌, ◌++◌, done, arith, replicate, inr}
use spctrx.Common.Words.{u64, align_down}
use spctrx.Memory.Cstring.{IsText}
use spctrx.Slab.{
  SlabCache, Store, Valid, AllocResult, slab_alloc, slab_init_cache, free_then_alloc,
  slab_alloc-Given, slab_init_cache-Valid, slab_alloc-slab_free,
}
use spctrx.Tests.Pages.{ready, ready-IsValid}

abbrev no_objects : ℕ → List ℕ
no_objects slab = []

-- No slab is open, and pages 1 and 3 to 9 are free.
abbrev store : Store
store = record {
  slabs = λ slab. record { start = 0; first_free = 0; used_obj = 0 };
  words = λ a. 0;
  pmm = ready;
}

abbrev nodes : SlabCache
nodes = record {
  name = [];
  full = [];
  partial = [];
  empty = [];
  obj_size = 72;
  obj_per_slab = 56;
  lock = false;
}

nodes-Valid : Valid 0x10000 nodes store no_objects
nodes-Valid = record {
  unlocked = refl;
  inv = record {
    pmm = ready-IsValid;
    mapped = omega arith;
    room = omega arith;
    some = omega arith;
    large = omega arith;
    slabs = tt;
    pages = tt;
    distinct = tt;
  };
}

slab_alloc-Given_example :
    AllocResult 0x10000 nodes store no_objects (slab_alloc 0x10000 nodes store)
slab_alloc-Given_example = slab_alloc-Given 0x10000 nodes store no_objects nodes-Valid

abbrev vfs : List ℕ
vfs = b'v' ∷ b'f' ∷ b's' ∷ []

vfs-IsText : IsText vfs
vfs-IsText = (
  λ e. omega arith,
  omega arith,
  (λ e. omega arith, omega arith, (λ e. omega arith, omega arith, tt)),
)

slab_init_cache-Valid_example :
    (cache : SlabCache) × (slab_init_cache (replicate 64 7 ++ 0 ∷ []) (vfs ++ 0 ∷ []) 60
      ≡ done cache)
    × Valid 0x10000 cache store no_objects
    × (60 + 8 ≤ cache.obj_size)
slab_init_cache-Valid_example =
    slab_init_cache-Valid 0x10000 vfs [] (replicate 64 7) (0 ∷ []) 60 store no_objects (omega arith)
      (omega arith) vfs-IsText refl ready-IsValid (omega arith)

-- The slab of page 3 is among the partial ones.
abbrev used : SlabCache
used = record nodes { partial = 0x3000 ∷ [] }

slab_alloc-slab_free_example : free_then_alloc 0 used store 0x3030 ≡ done (u64 (0x3030 + 8))
unfolding align_down
slab_alloc-slab_free_example =
    slab_alloc-slab_free 0 used store 0x3030 refl (omega arith) refl (inr refl)
