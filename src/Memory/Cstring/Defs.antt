-- ===== src/Memory/Cstring/Defs.antt =====
-- The functions on C strings. An array is the list of its bytes from the pointer on; a read or write
-- past its end is one that C leaves undefined.
use spctrx.Common.{
  ℕ, zero, suc, ◌+◌, not, ◌&&◌, List, [], ◌∷◌, Outcome, done, fault, ◌>>=◌, ◌==◌, if◌then◌else◌,
}
use spctrx.Common.Int.{ℤ, char_sub}

unfoldable pub strlen : List ℕ → Outcome ℕ
strlen [] = fault
strlen (c ∷ s) = let rest = strlen s in if c == 0 then done 0 else rest >>= λ n. done (n + 1)

-- The loop stops at a NUL in the first string or at a difference; `char` is signed.
unfoldable pub strcmp : List ℕ → List ℕ → Outcome ℤ
unfolding char_sub
strcmp [] t = fault
strcmp (a ∷ s) [] = fault
strcmp (a ∷ s) (b ∷ t) =
    let rest = strcmp s t in if not (a == 0) && a == b then rest else done (char_sub a b)

-- The result is the destination array after the call.
unfoldable pub strcpy : List ℕ → List ℕ → Outcome (List ℕ)
strcpy [] s = fault
strcpy (d ∷ dst) [] = fault
strcpy (d ∷ dst) (c ∷ s) =
    let rest = strcpy dst s in if c == 0 then done (0 ∷ dst) else rest >>= λ r. done (c ∷ r)

-- The second loop of `strncpy`: `n` more bytes become 0.
unfoldable pub strncpy_pad : List ℕ → ℕ → Outcome (List ℕ)
strncpy_pad dst zero = done dst
strncpy_pad [] (suc n) = fault
strncpy_pad (d ∷ dst) (suc n) = strncpy_pad dst n >>= λ r. done (0 ∷ r)

-- The first loop stops after `n` bytes or at the NUL of the source.
unfoldable pub strncpy : List ℕ → List ℕ → ℕ → Outcome (List ℕ)
unfolding strncpy_pad
strncpy dst s zero = done dst
strncpy [] s (suc n) = fault
strncpy (d ∷ dst) [] (suc n) = fault
strncpy (d ∷ dst) (c ∷ s) (suc n) =
    let rest = strncpy dst s n in
    if c == 0 then strncpy_pad (d ∷ dst) (suc n) else rest >>= λ r. done (c ∷ r)
