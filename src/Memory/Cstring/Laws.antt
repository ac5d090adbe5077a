-- ===== src/Memory/Cstring/Laws.antt =====
-- C strings against the text that they hold.
use spctrx.Common.{
  ℕ, zero, suc, ◌-◌, ◌<◌, ◌≡◌, ◌≢◌, ◌↔◌, refl, ap, inl, inr, List, [], ◌∷◌, ◌++◌, done, arith, ◌==◌,
  Bool-cases, length, take, replicate, ne→==,
}
use mathlib.Core.Path.{sym, ap₂}
use spctrx.Common.Int.{ℤ, pos, char_sub, char_sub-eq-zero}
use spctrx.Memory.Cstring.Defs.{strlen, strcmp, strcpy, strncpy_pad, strncpy}

-- Bytes that can stand before the NUL.
abbrev pub IsText : List ℕ → Type 0
IsText [] = Unit
IsText (c ∷ t) = (c ≢ 0) × (c < 256) × IsText t

-- `strlen` of an array that holds the text `t`, a NUL and anything behind it is the length of `t`.
pub strlen-length : (t rest : List ℕ) → IsText t → strlen (t ++ 0 ∷ rest) ≡ done (length t)
unfolding strlen
strlen-length [] rest h = refl
strlen-length (c ∷ t) rest h = rw (ne→== c 0 h.0, strlen-length t rest h.2) (ap done (omega arith))

-- `strcmp` of two arrays that hold the texts `t` and `u` returns, and its result is 0 exactly when the
-- texts are the same.
pub strcmp-eq :
    (t u rest rest' : List ℕ)
    → IsText t
    → IsText u
    → (d : ℤ) × (strcmp (t ++ 0 ∷ rest) (u ++ 0 ∷ rest') ≡ done d) × ((d ≡ pos 0) ↔ (t ≡ u))
unfolding strcmp
strcmp-eq [] [] rest rest' h k = (pos 0, refl, (λ e. refl, λ e. refl))
strcmp-eq [] (b ∷ u) rest rest' h k = (
  char_sub 0 b,
  refl,
  (λ e. absurd (k.0 (sym (char_sub-eq-zero 0 b (omega arith) k.1 e))), λ e. cc),
)
strcmp-eq (a ∷ t) [] rest rest' h k = (
  char_sub a 0,
  rw (ne→== a 0 h.0),
  (λ e. absurd (h.0 (char_sub-eq-zero a 0 h.1 (omega arith) e)), λ e. cc),
)
strcmp-eq (a ∷ t) (b ∷ u) rest rest' h k = elim (Bool-cases (a == b)) [
  | inl same ↦
      let (d, run, iff) = strcmp-eq t u rest rest' h.2 k.2 in
      let e : a ≡ b = ground arith in
      (d, rw (ne→== a 0 h.0, same) run, (λ z. ap₂ ◌∷◌ e (iff.0 z), λ p. iff.1 (cc)))
  | inr differ ↦
      let ne : a ≢ b = ground arith in
      (
        char_sub a b,
        rw (ne→== a 0 h.0, differ),
        (λ z. absurd (ne (char_sub-eq-zero a b h.1 k.1 z)), λ p. absurd (ne (cc))),
      )
]

strncpy_pad-zeros :
    (n : ℕ) (old rest : List ℕ)
    → length old ≡ n
    → strncpy_pad (old ++ rest) n ≡ done (replicate n 0 ++ rest)
unfolding strncpy_pad
strncpy_pad-zeros zero [] rest h = refl
strncpy_pad-zeros zero (d ∷ old) rest h = absurd (omega arith)
strncpy_pad-zeros (suc n) [] rest h = absurd (omega arith)
strncpy_pad-zeros (suc n) (d ∷ old) rest h = rw (strncpy_pad-zeros n old rest (omega arith))

-- `strncpy` of `n` bytes replaces the first `n` bytes of the destination by the first `n` bytes of the
-- text and zeros up to `n`, and leaves what lies behind. A text of `n` bytes or more gets no NUL.
pub strncpy_lem :
    (t rest old behind : List ℕ) (n : ℕ)
    → IsText t
    → length old ≡ n
    → strncpy (old ++ behind) (t ++ 0 ∷ rest) n
      ≡ done (take n t ++ (replicate (n - length t) 0 ++ behind))
unfolding strncpy
strncpy_lem t rest [] behind zero h e =
    let none_left : 0 - length t ≡ 0 = omega arith in rw none_left
strncpy_lem t rest (d ∷ old) behind zero h e = absurd (omega arith)
strncpy_lem t rest [] behind (suc n) h e = absurd (omega arith)
strncpy_lem [] rest (d ∷ old) behind (suc n) h e =
    let all_left : suc n - 0 ≡ suc n = omega arith in
    rw all_left (strncpy_pad-zeros (suc n) (d ∷ old) behind e)
strncpy_lem (c ∷ t) rest (d ∷ old) behind (suc n) h e =
    let left : suc n - suc (length t) ≡ n - length t = omega arith in
    rw (ne→== c 0 h.0, strncpy_lem t rest old behind n h.2 (omega arith), left)

-- `strcpy` copies the text and its NUL.
pub strcpy_lem :
    (t rest old behind : List ℕ)
    → IsText t
    → length old ≡ length t
    → (d : ℕ) → strcpy (old ++ d ∷ behind) (t ++ 0 ∷ rest) ≡ done (t ++ 0 ∷ behind)
unfolding strcpy
strcpy_lem [] rest [] behind h e d = refl
strcpy_lem [] rest (x ∷ old) behind h e d = absurd (omega arith)
strcpy_lem (c ∷ t) rest [] behind h e d = absurd (omega arith)
strcpy_lem (c ∷ t) rest (x ∷ old) behind h e d =
    rw (ne→== c 0 h.0, strcpy_lem t rest old behind h.2 (omega arith) d)
