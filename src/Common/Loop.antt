-- ===== src/Common/Loop.antt =====
-- Counted loops whose body may fail to return.
use Prim.Native.Nat.{ℕ, zero, suc, ◌+◌, ◌<◌}
use mathlib.Core.Path.{◌≡◌, refl, ◌∙◌, ap}
use mathlib.Core.Logic.{◌⊎◌, inl, inr}
use mathlib.Core.Bool.{Bool, true, false}
use mathlib.Core.List.{List, [], ◌++◌}
use native.Mathlib.Omega.{arith}
use spctrx.Common.Ends.{panic, Outcome, done, hang, ◌>>=◌}
use spctrx.Common.Tests.{if◌then◌else◌}

-- `for (k = i; k < i + n; k++) s = body(k, s)`, with `n` rounds left.
unfoldable pub for_loop {ℓ} : {S : Type ℓ} → ℕ → ℕ → (ℕ → S → Outcome S) → S → Outcome S
for_loop zero i body s = done s
for_loop (suc n) i body s = body i s >>= for_loop n (i + 1) body

-- Where every round from a state of the invariant returns one, so does the loop.
pub for_loop_inv {ℓ κ} :
    {S : Type ℓ} (P : ℕ → S → Type κ) (body : ℕ → S → Outcome S) (last : ℕ)
    → ((i : ℕ) (s : S) → i < last → P i s → (s' : S) × (body i s ≡ done s') × P (suc i) s')
    → (n i : ℕ) (s : S) → i + n ≡ last
    → P i s
    → (s' : S) × (for_loop n i body s ≡ done s') × P last s'
unfolding for_loop
for_loop_inv P body last keep zero i s e h =
    let e' : i ≡ last = omega arith in (s, refl, rw (← e') h)
for_loop_inv P body last keep (suc n) i s e h =
    let (s₁, e₁, h₁) = keep i s (omega arith) h in
    let next : suc i ≡ i + 1 = omega arith in
    let (s₂, e₂, h₂) = for_loop_inv P body last keep n (i + 1) s₁ (omega arith) (rw (← next) h₁) in
    (s₂, rw e₁ e₂, h₂)

-- The lists that rounds `0` to `n - 1` put in front, the latest first.
unfoldable pub gather {ℓ} : {A : Type ℓ} → (ℕ → List A) → ℕ → List A
gather f zero = []
gather f (suc n) = f n ++ gather f n

-- `while (!test(k)) k++`, where each round asks a device: the first `k`, from the given one on, at which
-- the test holds.
unfoldable pub poll : ℕ → (ℕ → Bool) → ℕ → Outcome ℕ
poll zero test k = hang
poll (suc fuel) test k = let rest = poll fuel test (k + 1) in if test k then done k else rest

pub poll-stops :
    (fuel j from : ℕ) (test : ℕ → Bool)
    → j < fuel
    → ((i : ℕ) → i < j → test (from + i) ≡ false)
    → test (from + j) ≡ true
    → poll fuel test from ≡ done (from + j)
unfolding poll
poll-stops zero j from test lt before at = absurd (omega arith)
poll-stops (suc fuel) zero from test lt before at =
    let e : from + 0 ≡ from = omega arith in rw (e, rw e at at)
poll-stops (suc fuel) (suc j) from test lt before at =
    let e : from + 0 ≡ from = omega arith in
    let now = rw e at (before 0 (omega arith)) in
    let shift : (i : ℕ) → from + suc i ≡ from + 1 + i = λ i. omega arith in
    rw (now, shift j)
      (poll-stops fuel j (from + 1) test (omega arith)
        (λ i h. rw (shift i) at (before (suc i) (omega arith))) (rw (shift j) at at))

-- The same from the first round on.
pub poll-first :
    (fuel j : ℕ) (test : ℕ → Bool)
    → j < fuel
    → ((i : ℕ) → i < j → test i ≡ false)
    → test j ≡ true
    → poll fuel test 0 ≡ done j
poll-first fuel j test lt before at =
    let same : (i : ℕ) → 0 + i ≡ i = λ i. omega arith in
    poll-stops fuel j 0 test lt (λ i h. rw (same i) (before i h)) (rw (same j) at)
    ∙ ap done (same j)

-- Where a round may end the whole loop with a panic, for a reason `E`.
pub for_loop_inv_or {ℓ κ} :
    {S : Type ℓ} (P : ℕ → S → Type κ) (E : Type κ) (body : ℕ → S → Outcome S) (last : ℕ)
    → ((i : ℕ) (s : S)
        → i < last
        → P i s
        → ((s' : S) × (body i s ≡ done s') × P (suc i) s') ⊎ ((body i s ≡ panic) × E))
    → (n i : ℕ) (s : S) → i + n ≡ last
    → P i s
    → ((s' : S) × (for_loop n i body s ≡ done s') × P last s') ⊎ ((for_loop n i body s ≡ panic) × E)
unfolding for_loop
for_loop_inv_or P E body last keep zero i s e h =
    let e' : i ≡ last = omega arith in inl (s, refl, rw (← e') h)
for_loop_inv_or P E body last keep (suc n) i s e h = elim (keep i s (omega arith) h) [
  | inl (s₁, e₁, h₁) ↦
      let next : suc i ≡ i + 1 = omega arith in
      elim (for_loop_inv_or P E body last keep n (i + 1) s₁ (omega arith) (rw (← next) h₁)) [
        | inl (s₂, e₂, h₂) ↦ inl (s₂, rw e₁ e₂, h₂)
        | inr (stop, why) ↦ inr (rw e₁ stop, why)
      ]
  | inr (stop, why) ↦ inr (rw stop, why)
]
