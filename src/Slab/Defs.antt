-- ===== src/Slab/Defs.antt =====
-- The structs and functions of slab.c. A slab is known by the address of its page, where its header lies;
-- the words of the objects are kept apart from the headers. A linked list of slabs is the list of their
-- addresses, front first. The pointers to caches are those of static variables.
use spctrx.Common.{
  ℕ, zero, suc, ◌+◌, ◌-◌, ◌/◌, Bool, true, false, ◌&&◌, ◌||◌, not, List, [], ◌∷◌, Outcome, done,
  fault, hang, ◌>>=◌, ◌>>◌, assert, ltb, leb, ◌==◌, if◌then◌else◌,
}
use spctrx.Common.Words.{u64, sub64, align_up, align_down, page_size}
use spctrx.Spinlock.{Spinlock, spinlock_acquire, spinlock_drop, spinlock_init}
use spctrx.Pmm.{Pmm, pmm_alloc}
use spctrx.Vmm.{vmm_phys_to_virt}
use spctrx.Memory.Cstring.{strncpy}

pub record Slab : Type 0 where
  pub start : ℕ
  pub first_free : ℕ
  pub used_obj : ℕ

-- `sizeof(Slab)`: two pointers, a list head and a count.
abbrev pub sizeof_slab : ℕ
sizeof_slab = 40

pub record SlabCache : Type 0 where
  pub name : List ℕ
  pub full : List ℕ
  pub partial : List ℕ
  pub empty : List ℕ
  pub obj_size : ℕ
  pub obj_per_slab : ℕ
  pub lock : Spinlock

-- The headers, the words of 64 bits, and the page allocator.
pub record Store : Type 0 where
  pub slabs : ℕ → Slab
  pub words : ℕ → ℕ
  pub pmm : Pmm

abbrev pub write_word : (ℕ → ℕ) → ℕ → ℕ → ℕ → ℕ
write_word words a v q = if a == q then v else words q

abbrev pub write_slab : (ℕ → Slab) → ℕ → Slab → ℕ → Slab
write_slab slabs a v q = if a == q then v else slabs q

-- The loop over the objects of a new slab, with `n` rounds left; object `i` lies at `object`.
unfoldable pub link_loop : ℕ → ℕ → ℕ → (ℕ → ℕ) → ℕ → ℕ
link_loop zero size object words = words
link_loop (suc n) size object words =
    link_loop n size (object + size) (write_word words object (object + size))

unfoldable pub slab_alloc_slab : ℕ → SlabCache → Store → Outcome (SlabCache × Store)
unfolding link_loop
slab_alloc_slab hhdm cache w = do
  (phys, pmm) ← pmm_alloc w.pmm 1
  let slab = vmm_phys_to_virt hhdm phys
  let start = slab + sizeof_slab
  let header : Slab = record { start = start; first_free = start; used_obj = 0 }
  done (
    record cache { empty = slab ∷ cache.empty },
    record {
      slabs = write_slab w.slabs slab header;
      words = link_loop (sub64 cache.obj_per_slab 1) cache.obj_size start w.words;
      pmm = pmm;
    },
  )

-- The first free object of a slab is taken: the header after that.
abbrev pub pop : Store → ℕ → Slab
pop w slab =
    let s = w.slabs slab in
    record { start = s.start; first_free = w.words s.first_free; used_obj = u64 (s.used_obj + 1) }

abbrev pub is_nil : List ℕ → Bool
is_nil [] = true
is_nil (x ∷ xs) = false

-- The part of `slabAlloc` behind the choice of a list, for the lists `empty` and `partial`: the first slab
-- of `empty`, or else of `partial`. A slab whose objects are all used moves to the full ones.
unfoldable pub take_first : SlabCache → Store → List ℕ → List ℕ → Outcome (ℕ × SlabCache × Store)
take_first cache w [] [] = fault
take_first cache w [] (slab ∷ rest) =
    let s' = pop w slab in
    done (
      u64 ((w.slabs slab).first_free + 8),
      (if s'.used_obj == cache.obj_per_slab
          then record cache { partial = rest; full = slab ∷ cache.full }
          else cache),
      record w { slabs = write_slab w.slabs slab s' },
    )
take_first cache w (slab ∷ rest) partial =
    let s' = pop w slab in
    done (
      u64 ((w.slabs slab).first_free + 8),
      (if s'.used_obj == cache.obj_per_slab
          then record cache { empty = rest; full = slab ∷ cache.full }
          else cache),
      record w { slabs = write_slab w.slabs slab s' },
    )

-- `slabAlloc` calls itself once it has made a slab; the number bounds the calls.
unfoldable pub slab_alloc_calls : ℕ → ℕ → SlabCache → Store → Outcome (ℕ × SlabCache × Store)
unfolding take_first
slab_alloc_calls zero hhdm cache w = hang
slab_alloc_calls (suc calls) hhdm cache w = do
  lock ← spinlock_acquire cache.lock
  if is_nil cache.partial && is_nil cache.empty
      then (do
        (cache₁, w₁) ← slab_alloc_slab hhdm (record cache { lock = lock }) w
        slab_alloc_calls calls hhdm (record cache₁ { lock = spinlock_drop lock }) w₁)
      else (do
        (result, cache₁, w₁) ← take_first (record cache { lock = lock }) w cache.empty cache.partial
        done (result, record cache₁ { lock = spinlock_drop lock }, w₁))

unfoldable pub slab_alloc : ℕ → SlabCache → Store → Outcome (ℕ × SlabCache × Store)
unfolding slab_alloc_calls
slab_alloc hhdm cache w = slab_alloc_calls 2 hhdm cache w

abbrev pub member : ℕ → List ℕ → Bool
member x [] = false
member x (y ∷ ys) = x == y || member x ys

abbrev pub erase : ℕ → List ℕ → List ℕ
erase x [] = []
erase x (y ∷ ys) = if x == y then ys else y ∷ erase x ys

-- The header of a slab that is in no list has no neighbours, and `llDelete` writes through what it holds.
unfoldable pub slab_free : SlabCache → Store → ℕ → Outcome (SlabCache × Store)
slab_free cache w addr = do
  assert (not (addr == 0))
  lock ← spinlock_acquire cache.lock
  let slab = align_down addr page_size
  let s = w.slabs slab
  let s' : Slab = record { start = s.start; first_free = addr; used_obj = sub64 s.used_obj 1 }
  let full = erase slab cache.full
  let partial = erase slab cache.partial
  let empty = erase slab cache.empty
  if member slab cache.full || member slab cache.partial || member slab cache.empty
      then done (
        record cache {
          full = full;
          partial = if s'.used_obj == 0 then partial else slab ∷ partial;
          empty = if s'.used_obj == 0 then slab ∷ empty else empty;
          lock = spinlock_drop lock;
        },
        record w {
          slabs = write_slab w.slabs slab s';
          words = write_word w.words addr s.first_free;
        },
      )
      else fault

-- `stale` is what the array for the name holds before the call.
unfoldable pub slab_init_cache : List ℕ → List ℕ → ℕ → Outcome SlabCache
slab_init_cache stale name obj_size = do
  assert (ltb 0 obj_size)
  let size = u64 (align_up obj_size 8 + 8)
  name' ← strncpy stale name 64
  if size == 0 then fault else done tt
  let count = (page_size - sizeof_slab) / size
  assert (leb 1 count)
  done (record {
    name = name';
    full = [];
    partial = [];
    empty = [];
    obj_size = size;
    obj_per_slab = count;
    lock = spinlock_init;
  })
