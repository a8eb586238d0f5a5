-- ===== src/Paging/Order.antt =====
-- The order of the block of a mapping, and that the other module's `my_get_order` finds the same.
use native.Mathlib.Nat.{pow-suc, pow-le-pow_right}
use cse522s.Base.{
  ℕ, zero, suc, ◌+◌, ◌-◌, ◌*◌, ◌^◌, ◌≤◌, ◌<◌, ◌≡◌, refl, ◌∙◌, sym, inl, inr, ap, some, arith, ltb,
  u32, Bool-cases,
}
use cse522s.KernelMemory.{my_get_order}
use cse522s.KernelMemory.Order.{IsOrder, my_get_order-IsOrder}
use cse522s.Paging.{Vma, page_num, find_order, vma_order}

find_order-IsOrder :
    (fuel order n : ℕ)
    → order + fuel ≡ 31
    → n ≤ 2 ^ 31
    → 2 ^ order < 2 * n
    → (d : ℕ) × (find_order fuel order n ≡ some d) × IsOrder n d
unfolding find_order
find_order-IsOrder zero order n e small least =
    let full : order ≡ 31 = omega (arith, e) in
    let hi : n ≤ 2 ^ order = rw full small in (order, ground (arith, hi), (hi, least))
find_order-IsOrder (suc fuel) order n e small least = elim (Bool-cases (ltb (2 ^ order) n)) [
  | inl below ↦
      let (d, r, o) =
        find_order-IsOrder fuel (u32 (order + 1)) n (omega (arith, e)) small
          (rw (next order (omega (arith, e))) (ground (arith, pow-suc 2 order, below))) in
      (d, rw (below, r) refl, o)
  | inr covers ↦ (order, rw covers refl, (ground (arith, covers), least))
]
  where
    next : (order : ℕ) → order ≤ 31 → u32 (order + 1) ≡ suc order
    next order h = omega arith

IsOrder_le : (n d e : ℕ) → IsOrder n d → IsOrder n e → d ≤ e
IsOrder_le n d e h k = elim (Bool-cases (ltb e d)) [
  | inr above ↦ ground (arith, above)
  | inl below ↦
      let up : 2 ^ suc e ≤ 2 ^ d = pow-le-pow_right (omega arith) (ground (arith, below)) in
      absurd (omega (arith, up, pow-suc 2 e, h, k))
]

-- For 1 to 2 ^ 31 pages, the order that this module's loop finds is the one that `my_get_order`
-- computes from the digits.
pub find_order-my_get_order : (n : ℕ) → 0 < n → n ≤ 2 ^ 31 → find_order 31 0 n ≡ my_get_order n
find_order-my_get_order n pos small =
    let (d, r, h) = find_order-IsOrder 31 0 n refl small (omega arith) in
    let (e, q, k) = my_get_order-IsOrder n pos (omega arith) in
    let same : d ≡ e = omega (arith, IsOrder_le n d e h k, IsOrder_le n e d k h) in
    r ∙ ap some same ∙ sym q

-- For a mapping of 1 to 2 ^ 32 - 1 bytes the loop ends, on an order whose block covers the mapping,
-- and half of that block is less than the mapping and 4095 bytes.
pub vma_order-covers :
    (vma : Vma)
    → vma.vm_start < vma.vm_end
    → vma.vm_end - vma.vm_start < 2 ^ 32
    → (order : ℕ) × (vma_order vma ≡ some order)
      × (vma.vm_end ≤ vma.vm_start + 4096 * 2 ^ order)
      × (4096 * 2 ^ order < 2 * (vma.vm_end - vma.vm_start + 4095))
unfolding vma_order
vma_order-covers vma some_bytes small =
    let n = u32 (vma.vm_end - vma.vm_start) in
    let (d, r, h) = find_order-IsOrder 31 0 (page_num n) refl (ground arith) (ground arith) in
    (d, r, ground (arith, h), ground (arith, h))
