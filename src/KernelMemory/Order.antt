-- ===== src/KernelMemory/Order.antt =====
-- `my_get_order` is the least exponent whose power of two holds the pages.
use Prim.Native.Nat.{bit_and}
use native.Mathlib.Nat.{pow-suc}
use native.Mathlib.Decide.{ℕ_discrete}
use cse522s.Base.{ℕ, zero, suc, ◌+◌, ◌-◌, ◌*◌, ◌/◌, ◌^◌, ◌≤◌, ◌<◌, ◌≡◌, ◌≢◌, refl, some, arith, u32}
use cse522s.Base.Bits.{bit_and-pow}
use cse522s.KernelMemory.{count_shifts, my_get_order}

widen :
    (n d : ℕ) → 0 < n → (0 < n / 2 → 2 ^ d ≤ 2 * (n / 2)) → (n / 2 ≡ 0 → d ≡ 0) → 2 ^ suc d ≤ 2 * n
widen n d pos lo none_left = elim (ℕ_discrete (n / 2) 0) [
  | yes e ↦ rw (none_left e) (omega arith)
  | no ne ↦ omega (arith, pow-suc 2 d, lo (omega arith))
]

-- `count_shifts` adds the number `d` of binary digits to its accumulator.
count_shifts-width :
    (fuel n shifts : ℕ)
    → n < 2 ^ fuel
    → shifts + fuel ≤ 32
    → (d : ℕ) × (count_shifts fuel n shifts ≡ some (shifts + d))
      × (n < 2 ^ d)
      × (0 < n → 2 ^ d ≤ 2 * n)
      × (n ≡ 0 → d ≡ 0)
unfolding count_shifts
count_shifts-width zero n shifts lt small =
    (0, ground arith, omega arith, λ h. omega arith, λ h. refl)
count_shifts-width (suc fuel) n shifts lt small = elim (ℕ_discrete n 0) [
  | yes e ↦ (0, ground arith, omega arith, λ h. absurd (omega arith), λ h. refl)
  | no ne ↦
      let (d, e, hi, lo, none_left) =
        count_shifts-width fuel (n / 2) (u32 (shifts + 1)) (omega (arith, pow-suc 2 fuel))
          (omega arith) in
      (
        suc d,
        ground (arith, e),
        omega (arith, pow-suc 2 d),
        λ h. widen n d (omega arith) lo none_left,
        λ h. absurd (ne h),
      )
]

-- A width below the next power of two is the least order.
abbrev pub IsOrder : ℕ → ℕ → Type 0
IsOrder n d = (n ≤ 2 ^ d) × (2 ^ d < 2 * n)

-- For a positive 32-bit number of pages `my_get_order` returns, within 32 shifts, an order whose
-- power of two covers the pages and is less than twice as large: the least one.
pub my_get_order-IsOrder :
    (n : ℕ) → 0 < n → n < 2 ^ 32 → (d : ℕ) × (my_get_order n ≡ some d) × IsOrder n d
unfolding my_get_order
my_get_order-IsOrder n pos small = elim (ℕ_discrete (bit_and n (n - 1)) 0) [
  | yes e ↦
      let (d, r, hi, lo, none_left) = count_shifts-width 32 (n - 1) 0 (omega arith) (omega arith) in
      (d, ground (arith, e, r), (omega arith, exact n d pos lo none_left))
  | no ne ↦
      let (d, r, hi, lo, none_left) = count_shifts-width 32 n 0 (omega arith) (omega arith) in
      (d, ground (arith, ne, r), (omega arith, strict n d hi (lo pos) ne))
]
  where
    exact :
        (n d : ℕ) → 0 < n → (0 < n - 1 → 2 ^ d ≤ 2 * (n - 1)) → (n - 1 ≡ 0 → d ≡ 0) → 2 ^ d < 2 * n
    exact n d pos lo none_left = elim (ℕ_discrete (n - 1) 0) [
      | yes e ↦ rw (none_left e) (omega arith)
      | no ne ↦ omega (arith, lo (omega arith))
    ]

    strict : (n d : ℕ) → n < 2 ^ d → 2 ^ d ≤ 2 * n → bit_and n (n - 1) ≢ 0 → 2 ^ d < 2 * n
    strict n zero hi le ne = omega arith
    strict n (suc d) hi le ne = elim (ℕ_discrete n (2 ^ d)) [
      | yes e ↦ absurd (ne (rw e (bit_and-pow d)))
      | no other ↦ omega (arith, pow-suc 2 d)
    ]
