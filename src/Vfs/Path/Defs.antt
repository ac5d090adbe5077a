-- ===== src/Vfs/Path/Defs.antt =====
-- The loop of `vfsLookup` over the path, for any way to look a name up.
use spctrx.Common.{
  ℕ, zero, suc, Bool, true, List, [], ◌∷◌, ◌++◌, Option, none, some, Outcome, done, hang, ◌>>=◌,
  ltb, leb, ◌==◌, if◌then◌else◌, length,
}

-- `Node` is the type of nodes, `look` is `vfsLook` on a node that is not null, and `is_file` the test
-- of the type against TYPE_FILE. A null node is `none`.
module _ {Node : Type 0} (look : Node → List ℕ → Outcome (Option Node))
    (is_file : Node → Bool) where
  -- `vfsLook` on a node that may be null.
  abbrev pub look_at : Option Node → List ℕ → Outcome (Option Node)
  look_at none name = done none
  look_at (some n) name = look n name

  abbrev pub stop_at : Option Node → Bool
  stop_at none = true
  stop_at (some n) = is_file n

  -- The loop, with the pointer at `path` and the name so far in `sp`; `length sp` is `i`. Each round
  -- takes one unit of fuel. A byte that finds the buffer full takes `continue`, which leaves out the
  -- increment of the pointer. After the loop, a name that is left is looked up.
  unfoldable pub walk : ℕ → List ℕ → Option Node → List ℕ → Outcome (Option Node)
  walk zero path current sp = hang
  walk (suc fuel) [] current sp = if ltb 0 (length sp) then look_at current sp else done current
  walk (suc fuel) (c ∷ path) current sp =
      let enter = λ (found : Option Node).
        let rest = walk fuel path found [] in if stop_at found then done none else rest in
      let skip = walk fuel path current [] in
      let stay = walk fuel (c ∷ path) current sp in
      let keep = walk fuel path current (sp ++ c ∷ []) in
      if c == 0x2f
      then (if ltb 0 (length sp) then look_at current sp >>= enter else skip)
      else if leb 63 (length sp)
      then stay
      else keep
