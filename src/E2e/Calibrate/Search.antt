-- ===== src/E2e/Calibrate/Search.antt =====
-- The bisection ends, and its result is a threshold of the measurements whatever they are.
use mathlib.Core.Path.{subst}
use native.Mathlib.Nat.{pow-suc}
use cse522s.Base.{
  ℕ, zero, suc, ◌+◌, ◌-◌, ◌^◌, ◌≤◌, ◌<◌, ◌≡◌, ◌⊎◌, refl, inl, inr, Bool, true, false, Option, none,
  some, ltb, ltb→lt, ◌/◌, arith, u32, Bool-cases,
}
use cse522s.E2e.Calibrate.{max_count, rounds, bisect}

-- A result that is in range, met the execution time unless it is the largest count, and is the
-- least such count next to its predecessor.
abbrev pub Threshold : (ℕ → Bool) → Option ℕ → Type 0
Threshold slow none = ⊥
Threshold slow (some n) =
    (n ≤ max_count) × ((n ≡ max_count) ⊎ (slow n ≡ true)) × ((n ≡ 0) ⊎ (slow (n - 1) ≡ false))

up : (lo hi : ℕ) → lo < hi → hi ≤ max_count → u32 (u32 (lo + hi) / 2 + 1) - 1 ≡ u32 (lo + hi) / 2
up lo hi lt top = omega arith

module _ (slow : ℕ → Bool) where
  bisect-Threshold :
      (fuel lo hi : ℕ)
      → hi - lo < 2 ^ fuel
      → lo ≤ hi
      → hi ≤ max_count
      → (hi ≡ max_count) ⊎ (slow hi ≡ true)
      → (lo ≡ 0) ⊎ (slow (lo - 1) ≡ false)
      → Threshold slow (bisect slow fuel lo hi)
  unfolding bisect
  bisect-Threshold zero lo hi narrow le top above below =
      let same : lo ≡ hi = omega arith in ground (arith, same)
  bisect-Threshold (suc fuel) lo hi narrow le top above below =
      let mid = u32 (lo + hi) / 2 in
      elim (Bool-cases (ltb lo hi)) [
        | inr done ↦ let same : lo ≡ hi = ground arith in ground (arith, same, done)
        | inl more ↦
            let lt : lo < hi = ltb→lt lo hi more in
            rw more (elim (Bool-cases (slow mid)) [
              | inl met ↦ rw met (
                  bisect-Threshold fuel lo mid (omega (arith, pow-suc 2 fuel)) (omega arith)
                    (omega arith) (inr met) below)
              | inr not_met ↦ rw not_met (
                  bisect-Threshold fuel (u32 (mid + 1)) hi (omega (arith, pow-suc 2 fuel))
                    (omega arith) top above (inr (rw (up lo hi lt top) not_met)))
            ])
      ]

-- The 27 rounds of fuel are enough for any measurements, and what the search returns is a threshold:
-- at most `1e8`, slow enough or the maximum, and zero or next to a count that was too fast.
pub bisect_total : (slow : ℕ → Bool) → Threshold slow (bisect slow rounds 0 max_count)
bisect_total slow =
    bisect-Threshold slow rounds 0 max_count (omega arith) (omega arith) (omega arith) (inl refl)
      (inl refl)

-- Where a longer run never measures less, the result is the least count that is slow enough: every
-- smaller count is too fast.
pub bisect-least :
    (slow : ℕ → Bool)
    → ((a b : ℕ) → a ≤ b → slow a ≡ true → slow b ≡ true)
    → (n k : ℕ) → bisect slow rounds 0 max_count ≡ some n
    → k < n
    → slow k ≡ false
bisect-least slow mono n k e lt = elim (Bool-cases (slow k)) [
  | inr fast ↦ fast
  | inl met ↦ ground (arith, subst (Threshold slow) e (bisect_total slow), mono k (n - 1), met)
]
