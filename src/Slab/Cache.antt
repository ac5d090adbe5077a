-- ===== src/Slab/Cache.antt =====
-- The invariant of a cache and what an allocation takes from it. The invariant is about the slabs that
-- are not full, `empty ++ partial`, and says which objects each of them has to give.
use spctrx.Common.{
  ℕ, ◌+◌, ◌*◌, ◌^◌, ◌<◌, ◌≤◌, ◌≡◌, ◌≢◌, ◌⊎◌, true, false, List, [], ◌∷◌, length, ◌==◌,
  if◌then◌else◌,
}
use spctrx.Common.Words.{page_size}
use spctrx.LinkedList.{Apart, AllApart}
use spctrx.Pmm
use spctrx.Pmm.{Pmm, in_use}
use spctrx.Slab.Defs.{Store, sizeof_slab}
use spctrx.Slab.Chain.{IsObject, IsSlab}

-- A slab lies in a page that is in use.
abbrev pub IsPage : ℕ → Pmm → ℕ → Type 0
IsPage hhdm pmm slab =
    (page : ℕ) × (page < pmm.pages.bits)
    × (slab ≡ page * page_size + hhdm)
    × (in_use pmm page ≡ true)

abbrev pub HasFree : ℕ → ℕ → Store → (ℕ → List ℕ) → ℕ → Type 0
HasFree size count w frees slab = IsSlab size count w slab (frees slab) × (0 < length (frees slab))

abbrev pub AllSlabs : (ℕ → Type 0) → List ℕ → Type 0
AllSlabs P [] = Unit
AllSlabs P (x ∷ xs) = P x × AllSlabs P xs

-- The slabs `open` have the objects `frees` to give, each slab at least one, and lie in different pages
-- that are in use.
pub record IsCache (hhdm size count : ℕ) (open_slabs : List ℕ) (w : Store) (frees : ℕ → List ℕ)
    : Type 0 where
  pub pmm : Pmm.IsValid w.pmm
  pub mapped : w.pmm.pages.bits * page_size + hhdm ≤ 2 ^ 64
  pub room : sizeof_slab + count * size ≤ page_size
  pub some : 0 < count
  pub large : 8 < size
  pub slabs : AllSlabs (HasFree size count w frees) open_slabs
  pub pages : AllSlabs (IsPage hhdm w.pmm) open_slabs
  pub distinct : AllApart open_slabs

-- A map that needs to know that the element differs from `p`.
pub AllSlabs-apart :
    (P Q : ℕ → Type 0) (p : ℕ) (xs : List ℕ)
    → ((x : ℕ) → p ≢ x → P x → Q x)
    → Apart p xs
    → AllSlabs P xs
    → AllSlabs Q xs
AllSlabs-apart P Q p [] f out h = tt
AllSlabs-apart P Q p (x ∷ xs) f out h = (f x out.0 h.0, AllSlabs-apart P Q p xs f out.1 h.1)

abbrev pub give : (ℕ → List ℕ) → ℕ → List ℕ → ℕ → List ℕ
give frees slab free q = if slab == q then free else frees q

-- What an allocation from a cache has taken: an object that its slab had to give, or one of a new slab
-- in a page that nobody used. It is not given again, and the other slabs give what they gave.
pub record Taken (hhdm size count : ℕ) (w : Store) (frees : ℕ → List ℕ) (slab result : ℕ)
    (open' : List ℕ) (w' : Store) (frees' : ℕ → List ℕ) : Type 0 where
  pub object : ℕ
  pub at : result ≡ object + 8
  pub place : IsObject size count slab object
  pub source :
      (frees slab ≡ object ∷ frees' slab)
      ⊎ ((page : ℕ) × (slab ≡ page * page_size + hhdm) × (in_use w.pmm page ≡ false))
  pub gone : Apart object (frees' slab)
  pub others : (q : ℕ) → slab ≢ q → frees' q ≡ frees q
  pub valid : IsCache hhdm size count open' w' frees'
