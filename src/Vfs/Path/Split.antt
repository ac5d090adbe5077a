-- ===== src/Vfs/Path/Split.antt =====
-- What the loop computes: the names between the slashes are looked up in turn.
use spctrx.Common.{
  ℕ, zero, suc, ◌+◌, ◌<◌, ◌≤◌, ◌≡◌, ◌≢◌, refl, ap, ◌∙◌, ◌-◌, Bool, false, inl, inr, List, [], ◌∷◌,
  ◌++◌, Option, none, Outcome, done, hang, ◌>>=◌, arith, leb, if◌then◌else◌, length, length-append,
  Bool-cases, ne→==, lt→ltb, le→leb, bind_eq,
}
use mathlib.Core.List.{append-nil, append_assoc}
use spctrx.Vfs.Path.Defs.{look_at, stop_at, walk}

-- The bytes of a name: no slash and no NUL.
abbrev pub NoSlash : List ℕ → Type 0
NoSlash [] = Unit
NoSlash (c ∷ t) = (c ≢ 0x2f) × NoSlash t

-- A name that fits the buffer.
pub record IsName (t : List ℕ) : Type 0 where
  pub plain : NoSlash t
  pub nonempty : 0 < length t
  pub fits : length t ≤ 63

abbrev pub AreNames : List (List ℕ) → Type 0
AreNames [] = Unit
AreNames (t ∷ ts) = IsName t × AreNames ts

-- The path with a slash in front of each name.
abbrev pub path_of : List (List ℕ) → List ℕ
path_of [] = []
path_of (t ∷ ts) = 0x2f ∷ (t ++ path_of ts)

module _ {Node : Type 0} (look : Node → List ℕ → Outcome (Option Node))
    (is_file : Node → Bool) where
  -- The names in turn; each one but the last has to give a node that is not a file.
  abbrev pub resolve : Option Node → List (List ℕ) → Outcome (Option Node)
  resolve current [] = done current
  resolve current (t ∷ []) = look_at look is_file current t
  resolve current (t ∷ u ∷ ts) = look_at look is_file current t >>= λ found.
      (let rest = resolve found (u ∷ ts) in if stop_at look is_file found then done none else rest)

  -- The rounds over the bytes of a name that fits: they move into the buffer.
  walk-name :
      (t : List ℕ) (f fuel : ℕ) (path : List ℕ) (current : Option Node) (sp : List ℕ)
      → NoSlash t
      → length sp + length t ≤ 63
      → f ≡ length t + fuel
      → walk look is_file f (t ++ path) current sp ≡ walk look is_file fuel path current (sp ++ t)
  unfolding walk
  walk-name [] f fuel path current sp h fits e =
      let same : f ≡ fuel = omega arith in rw (same, append-nil)
  walk-name (c ∷ t) zero fuel path current sp h fits e = absurd (omega arith)
  walk-name (c ∷ t) (suc f) fuel path current sp h fits e =
      let room : leb 63 (length sp) ≡ false = ground arith in
      let fits' : length (sp ++ c ∷ []) + length t ≤ 63 =
        omega (arith, length-append sp (c ∷ [])) in
      rw (ne→== c 0x2f h.0, room)
        (walk-name t f fuel path current (sp ++ c ∷ []) h.1 fits' (omega arith)
          ∙ ap (walk look is_file fuel path current) (append_assoc sp (c ∷ []) t))

  -- After a first name that is in the buffer, the rest of the path.
  walk-rest :
      (ts : List (List ℕ)) (t : List ℕ) (fuel : ℕ) (current : Option Node)
      → IsName t
      → AreNames ts
      → length (path_of ts) < fuel
      → walk look is_file fuel (path_of ts) current t ≡ resolve current (t ∷ ts)
  unfolding walk
  walk-rest ts t zero current h hs enough = absurd (omega arith)
  walk-rest [] t (suc fuel) current h hs enough = rw (lt→ltb 0 (length t) h.nonempty)
  walk-rest (u ∷ ts) t (suc fuel) current h hs enough =
      let room : length u + length (path_of ts) < fuel =
        omega (arith, length-append u (path_of ts)) in
      let go_on : (found : Option Node)
          → walk look is_file fuel (u ++ path_of ts) found [] ≡ resolve found (u ∷ ts) =
        λ found.
          walk-name u fuel (fuel - length u) (path_of ts) found [] hs.0.plain
            (omega (arith, hs.0.fits)) (omega arith)
          ∙ walk-rest ts u (fuel - length u) found hs.0 hs.1 (omega arith) in
      rw (lt→ltb 0 (length t) h.nonempty)
        (bind_eq (look_at look is_file current t) _ _ λ found. rw (go_on found))

  -- A byte that finds the buffer full is seen again in every round.
  walk-full :
      (fuel c : ℕ) (path : List ℕ) (current : Option Node) (sp : List ℕ)
      → c ≢ 0x2f
      → 63 ≤ length sp
      → walk look is_file fuel (c ∷ path) current sp ≡ hang
  unfolding walk
  walk-full zero c path current sp h full = refl
  walk-full (suc fuel) c path current sp h full =
      rw (ne→== c 0x2f h, le→leb 63 (length sp) full) (walk-full fuel c path current sp h full)

  walk-long :
      (t : List ℕ) (fuel : ℕ) (path : List ℕ) (current : Option Node) (sp : List ℕ)
      → NoSlash t
      → length sp ≤ 63
      → 63 < length sp + length t
      → walk look is_file fuel (t ++ path) current sp ≡ hang
  unfolding walk
  walk-long [] fuel path current sp h fits long = absurd (omega arith)
  walk-long (c ∷ t) zero path current sp h fits long = refl
  walk-long (c ∷ t) (suc fuel) path current sp h fits long =
      elim (Bool-cases (leb 63 (length sp))) [
        | inl full ↦ walk-full (suc fuel) c (t ++ path) current sp h.0 (ground arith)
        | inr room ↦
            rw (ne→== c 0x2f h.0, room)
              (walk-long t fuel path current (sp ++ c ∷ []) h.1
                (ground (arith, length-append sp (c ∷ [])))
                (omega (arith, length-append sp (c ∷ []))))
      ]

-- A path that is made of names that fit the buffer, each behind a slash: the loop ends, in at most
-- one round for each byte and one more, with the result of looking the names up in turn.
pub walk-resolve :
    {Node : Type 0} (look : Node → List ℕ → Outcome (Option Node)) (is_file : Node → Bool)
    (ts : List (List ℕ)) (fuel : ℕ) (current : Option Node)
    → AreNames ts
    → length (path_of ts) < fuel
    → walk look is_file fuel (path_of ts) current [] ≡ resolve look is_file current ts
unfolding walk
walk-resolve look is_file ts zero current hs enough = absurd (omega arith)
walk-resolve look is_file [] (suc fuel) current hs enough = refl
walk-resolve look is_file (t ∷ ts) (suc fuel) current hs enough =
    let room : length t + length (path_of ts) < fuel =
      omega (arith, length-append t (path_of ts)) in
    walk-name look is_file t fuel (fuel - length t) (path_of ts) current [] hs.0.plain
      (omega (arith, hs.0.fits)) (omega arith)
    ∙ walk-rest look is_file ts t (fuel - length t) current hs.0 hs.1 (omega arith)

-- A name of 64 bytes or more behind a slash: from any node, no number of rounds ends the loop.
pub walk-hang :
    {Node : Type 0} (look : Node → List ℕ → Outcome (Option Node)) (is_file : Node → Bool)
    (t path : List ℕ) (fuel : ℕ) (current : Option Node)
    → NoSlash t
    → 63 < length t
    → walk look is_file fuel (0x2f ∷ (t ++ path)) current [] ≡ hang
unfolding walk
walk-hang look is_file t path zero current h long = refl
walk-hang look is_file t path (suc fuel) current h long =
    walk-long look is_file t fuel path current [] h (omega arith) (omega arith)
