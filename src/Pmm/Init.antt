-- ===== src/Pmm/Init.antt =====
-- `pmmInit`: the bitmap that it builds from the boot loader's memory map.
use spctrx.Common.{
  ℕ, ◌+◌, ◌*◌, ◌/◌, ◌^◌, ◌<◌, ◌≤◌, ◌≡◌, ◌≢◌, ◌∙◌, refl, Bool, true, false, ◌&&◌, ◌||◌, not, List,
  done, arith, ltb, leb, ◌==◌, length, ne→==,
}
use spctrx.Common.Words.{page_size, div_round_up}
use spctrx.Bitmap.{
  Bitmap, marked, bitmap_init, bitmap_fill_all, bitmap_set, bitmap_calculate_size,
  bitmap_calculate_size_bounds, bitmap_init-clear, bitmap_fill_all-reads, Filled, bitmap_fill,
  bitmap_fill-Filled, Written, bitmap_set-Written,
}
use spctrx.Pmm.Defs.{Pmm, MemmapEntry, last_usable, bitmap_addr, free_usable, pmm_init}
use spctrx.Pmm.Alloc.{IsValid, in_use}
use spctrx.Pmm.Map.{
  IsMemmap, usable_page, last_usable-Below, last_usable-lt, bitmap_addr-Place, Freed,
  free_usable-Freed,
}

-- The pages that hold the bitmap itself.
abbrev pub own_page : List MemmapEntry → ℕ → Bool
own_page map q =
    let size = bitmap_calculate_size (last_usable map 0 / page_size) in
    let start = bitmap_addr map size / page_size in
    leb start q && ltb q (start + div_round_up size page_size)

module _ (map : List MemmapEntry) (storage : ℕ → List ℕ) where
  abbrev pages : ℕ
  pages = last_usable map 0 / page_size

  abbrev size : ℕ
  size = bitmap_calculate_size pages

  abbrev addr : ℕ
  addr = bitmap_addr map size

  abbrev end : ℕ
  end = addr / page_size + div_round_up size page_size

  -- The run, from the results of the calls in order.
  pmm_init-run :
      (b₀ b₁ b₂ b₃ b₄ : Bitmap)
      → addr ≢ 0
      → bitmap_init pages (storage addr) ≡ done b₀
      → bitmap_fill_all b₀ true ≡ done b₁
      → free_usable map b₁ ≡ done b₂
      → bitmap_fill b₂ (addr / page_size) end true ≡ done b₃
      → bitmap_set b₃ 0 true ≡ done b₄
      → pmm_init map storage ≡ done (record { pages = b₄; lock = false })
  unfolding pmm_init
  pmm_init-run b₀ b₁ b₂ b₃ b₄ found e₀ e₁ e₂ e₃ e₄ = rw (ne→== addr 0 found, e₀, e₁, e₂, e₃, e₄)

  abbrev Made : Pmm → Type 0
  Made s =
      IsValid s
      × (s.pages.bits ≡ pages)
      × ((q : ℕ)
          → q < s.pages.bits
          → in_use s q ≡ (not (usable_page map q) || own_page map q || q == 0))

  pmm_init-Made :
      (b₁ b₂ b₃ b₄ : Bitmap)
      → b₁.bits ≡ pages
      → 0 < pages
      → pages < 2 ^ 52
      → ((q : ℕ) → q < pages → marked b₁ q ≡ true)
      → Freed map b₁ b₂
      → Filled b₂ (addr / page_size) end true b₃
      → Written b₃ 0 true b₄
      → Made (record { pages = b₄; lock = false })
  pmm_init-Made b₁ b₂ b₃ b₄ bits pos small all₁ f₂ f₃ w₄ =
      let bits₄ : b₄.bits ≡ pages = w₄.same_bits ∙ f₃.same_bits ∙ f₂.same_bits ∙ bits in
      (
        record {
          bitmap = w₄.valid;
          zero_reserved = w₄.reads 0;
          nonempty = omega (arith, bits₄);
          addressable = omega (arith, bits₄);
          unlocked = refl;
        },
        bits₄,
        λ q h.
            let inside : q < pages = omega (arith, bits₄) in
            ground (arith, w₄.reads q, f₃.reads q, f₂.reads q, all₁ q inside),
      )

  own_inside :
      IsMemmap 0 map
      → page_size ≤ last_usable map 0
      → addr ≢ 0
      → (addr / page_size < pages) × (end ≤ pages) × (0 < pages) × (pages < 2 ^ 52)
  unfolding div_round_up
  own_inside m big found =
      let below = last_usable-Below map 0 0 m (omega arith) in
      let small = last_usable-lt map 0 0 m (omega arith) in
      let bounds = bitmap_calculate_size_bounds pages (omega arith) in
      let at = bitmap_addr-Place map 0 (last_usable map 0) size m below found in omega arith

-- On a map whose usable entries are as the boot loader documents, whatever the others are, and with room
-- for the bitmap, `pmmInit` returns a valid allocator with the lock free. A page below its end is free
-- exactly if it lies in a usable entry, holds no part of the bitmap, and is not page 0.
pub pmm_init-IsValid :
    (map : List MemmapEntry) (storage : ℕ → List ℕ)
    → IsMemmap 0 map
    → page_size ≤ last_usable map 0
    → bitmap_addr map (bitmap_calculate_size (last_usable map 0 / page_size)) ≢ 0
    → ((a : ℕ) → last_usable map 0 / page_size ≤ 64 * length (storage a))
    → (s : Pmm) × (pmm_init map storage ≡ done s)
      × IsValid s
      × (s.pages.bits ≡ last_usable map 0 / page_size)
      × ((q : ℕ)
          → q < s.pages.bits
          → in_use s q ≡ (not (usable_page map q) || own_page map q || q == 0))
pmm_init-IsValid map storage m big found room =
    let last : ℕ = last_usable map 0 in
    let addr : ℕ = bitmap_addr map (bitmap_calculate_size (last / page_size)) in
    let (lo, hi, pos, small) = own_inside map storage m big found in
    let (b₀, e₀, bits₀, v₀, _) =
      bitmap_init-clear (last / page_size) (storage addr) pos (omega arith) (room addr) in
    let (b₁, e₁, bits₁, v₁, all₁) = bitmap_fill_all-reads b₀ true v₀ (omega (arith, bits₀)) in
    let (b₂, e₂, f₂) =
      free_usable-Freed map 0 last b₁ m (last_usable-Below map 0 0 m (omega arith)) v₁
        (bits₁ ∙ bits₀) in
    let (b₃, e₃, f₃) =
      bitmap_fill-Filled b₂ (addr / page_size) (end map storage) true f₂.valid
        (omega (arith, f₂.same_bits, bits₁, bits₀)) (omega (arith, f₂.same_bits, bits₁, bits₀)) in
    let (b₄, e₄, w₄) =
      bitmap_set-Written b₃ f₃.valid 0 (omega (arith, f₃.same_bits, f₂.same_bits, bits₁, bits₀))
        true in
    let made =
      pmm_init-Made map storage b₁ b₂ b₃ b₄ (bits₁ ∙ bits₀) pos small
        (λ q h. all₁ q (omega (arith, bits₀))) f₂ f₃ w₄ in
    (
      record { pages = b₄; lock = false },
      pmm_init-run map storage b₀ b₁ b₂ b₃ b₄ found e₀ e₁ e₂ e₃ e₄,
      made.0,
      made.1,
      made.2,
    )
