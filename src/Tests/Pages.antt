-- ===== src/Tests/Pages.antt =====
-- The bitmap and the page allocator at small inputs.
use spctrx.Common.{
  ℕ, ◌*◌, ◌/◌, ◌<◌, ◌≡◌, ◌⊎◌, ◌||◌, ◌==◌, not, refl, true, false, List, [], ◌∷◌, done, panic, arith,
}
use spctrx.Common.Bits.{digit}
use spctrx.Common.Words.{page_size, div_round_up}
use spctrx.Bitmap
use spctrx.Bitmap.{
  Bitmap, marked, IsRun, Found, Filled, Written, bitmap_find, bitmap_fill, bitmap_set, bitmap_init,
  bitmap_fill_all, bitmap_check, find_loop, fill_loop, word, bitmap_calculate_size,
  bitmap_find-Found, bitmap_fill-Filled, bitmap_set-Written, bitmap_init-clear,
  bitmap_fill_all-reads, bitmap_calculate_size_bounds,
}
use spctrx.Pmm
use spctrx.Pmm.{
  Pmm, MemmapEntry, pmm_alloc, pmm_free, pmm_init, last_usable, bitmap_addr, in_use, Allocated,
  Changed, usable_page, own_page, IsMemmap, pmm_alloc-Allocated, pmm_free-Changed,
  pmm_free-pmm_alloc, pmm_init-IsValid,
}

-- Positions 0 and 2 of ten are marked.
abbrev small : Bitmap
small = record { bits = 10; data_size = 8; words = 5 ∷ [] }

small-IsValid : Bitmap.IsValid small
small-IsValid = record { covers = omega arith; sized = refl }

find_run : bitmap_find small 2 ≡ done 3
unfolding bitmap_find find_loop bitmap_check word
find_run = refl

-- An allocator with pages 0 and 2 in use, and what it becomes when two pages are taken.
abbrev pub ready : Pmm
ready = record { pages = small; lock = false }

abbrev taken : Pmm
taken = record { pages = record small { words = 29 ∷ [] }; lock = false }

pub ready-IsValid : Pmm.IsValid ready
unfolding digit
ready-IsValid = record {
  bitmap = small-IsValid;
  zero_reserved = refl;
  nonempty = omega arith;
  addressable = omega arith;
  unlocked = refl;
}

alloc_run : pmm_alloc ready 2 ≡ done (3 * page_size, taken)
unfolding pmm_alloc bitmap_find find_loop bitmap_check word bitmap_fill fill_loop bitmap_set
alloc_run = refl

pmm_alloc-Allocated_example :
    ((addr : ℕ) × (s' : Pmm) × (pmm_alloc ready 2 ≡ done (addr, s')) × Allocated ready 2 addr s')
    ⊎ ((pmm_alloc ready 2 ≡ panic) × ((p : ℕ) → IsRun small 2 p → ⊥))
pmm_alloc-Allocated_example = pmm_alloc-Allocated ready 2 ready-IsValid (omega arith)

pmm_free-pmm_alloc_example :
    (u : Pmm) × (pmm_free taken (3 * page_size) 2 ≡ done u)
    × Pmm.IsValid u
    × ((q : ℕ) → in_use u q ≡ in_use ready q)
pmm_free-pmm_alloc_example =
    pmm_free-pmm_alloc ready taken 2 (3 * page_size) ready-IsValid (omega arith) alloc_run

-- A reserved page, five usable ones, and a hole below a device.
abbrev map : List MemmapEntry
map =
    record { base = 0; size = 0x1000; usable = false }
    ∷ record { base = 0x1000; size = 0x5000; usable = true }
    ∷ record { base = 0x8000; size = 0x1000; usable = false }
    ∷ []

map-IsMemmap : IsMemmap 0 map
map-IsMemmap = (
  (λ u. absurd (cc)),
  ((λ u. (omega arith, omega arith, refl, refl, omega arith)), ((λ u. absurd (cc)), tt)),
)

abbrev storage : ℕ → List ℕ
storage addr = 0 ∷ []

pmm_init-IsValid_example :
    (s : Pmm) × (pmm_init map storage ≡ done s)
    × Pmm.IsValid s
    × (s.pages.bits ≡ last_usable map 0 / page_size)
    × ((q : ℕ)
        → q < s.pages.bits
        → in_use s q ≡ (not (usable_page map q) || own_page map q || q == 0))
unfolding last_usable bitmap_addr bitmap_calculate_size div_round_up
pmm_init-IsValid_example =
    pmm_init-IsValid map storage map-IsMemmap (omega arith) (λ e. omega arith) (λ a. omega arith)
