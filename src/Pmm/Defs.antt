-- ===== src/Pmm/Defs.antt =====
-- The state and the functions of pmm.c. The memory map comes from the boot loader. Messages on the
-- console are left out, and so is the content of the pages, except where `pmmZeroAlloc` clears it.
use spctrx.Common.{
  ℕ, ◌+◌, ◌*◌, ◌/◌, ◌%◌, Bool, true, false, ◌&&◌, not, List, [], ◌∷◌, Outcome, done, panic, ◌>>=◌,
  ◌>>◌, assert, ltb, leb, ◌==◌, if◌then◌else◌,
}
use spctrx.Common.Words.{u64, page_size, div_round_up}
use spctrx.Bitmap.{
  Bitmap, bitmap_calculate_size, bitmap_init, bitmap_set, bitmap_fill_all, bitmap_fill, bitmap_find,
}
use spctrx.Spinlock.{Spinlock, spinlock_acquire, spinlock_drop}

-- `pmmBitmap` and `pmmSpinlock`.
pub record Pmm : Type 0 where
  pub pages : Bitmap
  pub lock : Spinlock

-- An address of 0 stands for no page. On an empty search the lock is left held, and `panic` halts.
unfoldable pub pmm_alloc : Pmm → ℕ → Outcome (ℕ × Pmm)
pmm_alloc s n = do
  assert (ltb 0 n)
  lock ← spinlock_acquire s.lock
  found ← bitmap_find s.pages n
  if found == 0 then panic else do
    pages ← bitmap_fill s.pages found (u64 (found + n)) true
    done (u64 (found * page_size), record { pages = pages; lock = spinlock_drop lock })

unfoldable pub pmm_free : Pmm → ℕ → ℕ → Outcome Pmm
pmm_free s addr n = do
  assert (not (addr == 0))
  assert (ltb 0 n)
  lock ← spinlock_acquire s.lock
  let page = addr / page_size
  pages ← bitmap_fill s.pages page (u64 (page + n)) false
  done (record { pages = pages; lock = spinlock_drop lock })

-- `struct limine_memmap_entry`; `usable` is the test of its type against LIMINE_MEMMAP_USABLE.
pub record MemmapEntry : Type 0 where
  pub base : ℕ
  pub size : ℕ
  pub usable : Bool

-- The first loop of `pmmInit`: the end of the last usable entry in the order of the map.
unfoldable pub last_usable : List MemmapEntry → ℕ → ℕ
last_usable [] last = last
last_usable (e ∷ es) last = last_usable es (if e.usable then u64 (e.base + e.size) else last)

-- The second loop: the first usable entry, not at 0, that is large enough. 0 if there is none.
unfoldable pub bitmap_addr : List MemmapEntry → ℕ → ℕ
bitmap_addr [] size = 0
bitmap_addr (e ∷ es) size =
    if e.usable && not (e.base == 0) && leb size e.size then e.base else bitmap_addr es size

-- The third loop: usable entries that begin at a page boundary become free.
unfoldable pub free_usable : List MemmapEntry → Bitmap → Outcome Bitmap
free_usable [] b = done b
free_usable (e ∷ es) b = do
  b' ←
      if (e.base % page_size == 0) && e.usable
      then bitmap_fill b (e.base / page_size) (u64 (e.base + e.size) / page_size) false
      else done b
  free_usable es b'

-- `storage` is the memory at the address that the second loop finds, as words.
unfoldable pub pmm_init : List MemmapEntry → (ℕ → List ℕ) → Outcome Pmm
pmm_init map storage = do
  let last = last_usable map 0
  let size = bitmap_calculate_size (last / page_size)
  let addr = bitmap_addr map size
  assert (not (addr == 0))
  cleared ← bitmap_init (last / page_size) (storage addr)
  reserved ← bitmap_fill_all cleared true
  usable ← free_usable map reserved
  let start = addr / page_size
  own ← bitmap_fill usable start (start + div_round_up size page_size) true
  pages ← bitmap_set own 0 true
  done (record { pages = pages; lock = false })
