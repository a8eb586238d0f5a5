-- ===== src/RandomAccess/Twice.antt =====
-- Exclusive or undoes itself: a second iteration takes back what the first did.
use Prim.Native.Nat.{bit_xor}
use native.Mathlib.Decide.{ℕ_discrete}
use cse522s.Base.{
  ℕ, zero, suc, ◌*◌, ◌%◌, ◌^◌, ◌≤◌, ◌≡◌, refl, ◌∙◌, sym, ap, ◌==◌, if◌then◌else◌, arith, none, some,
  pos,
}
use cse522s.Base.Bits.{bit_xor_assoc, bit_xor_self, bit_xor_zero}
use cse522s.RandomAccess.{
  advance, hpcc_starts, offset, Table, update, updates, iteration, run_iterations, run_kernel,
}

-- What the rounds from `ran` on put into cell `k` altogether.
unfoldable pub mask : (rounds tbl_entries ran k : ℕ) → ℕ
mask zero tbl_entries ran k = 0
mask (suc rounds) tbl_entries ran k =
    bit_xor (if k == offset tbl_entries ran then ran else 0)
      (mask rounds tbl_entries (advance ran) k)

update-xor :
    (table : Table) (o ran k : ℕ)
    → update table o (bit_xor (table o) ran) k ≡ bit_xor (table k) (if k == o then ran else 0)
update-xor table o ran k = elim (ℕ_discrete k o) [
  | yes e ↦ ground (arith, e)
  | no ne ↦ ground (arith, ne, bit_xor_zero (table k))
]

-- The updates of all rounds come to one exclusive or per cell, with a mask that does not depend on
-- the table.
pub updates-mask :
    (rounds n : ℕ) (table : Table) (ran k : ℕ)
    → (updates rounds n table ran).0 k ≡ bit_xor (table k) (mask rounds n ran k)
unfolding updates mask
updates-mask zero n table ran k = sym (bit_xor_zero (table k))
updates-mask (suc rounds) n table ran k =
    updates-mask rounds n (update table (offset n ran) (bit_xor (table (offset n ran)) ran))
      (advance ran) k
    ∙ ap (λ x. bit_xor x (mask rounds n (advance ran) k)) (update-xor table (offset n ran) ran k)
    ∙ bit_xor_assoc (table k) (if k == offset n ran then ran else 0) (mask rounds n (advance ran) k)

-- An iteration from the same start of the register takes back what the last one did: after two, every
-- cell is as before.
pub iteration_twice :
    (long_bits : ℕ) (table : Table) (n ran k : ℕ)
    → (iteration long_bits (iteration long_bits table n ran).0 n ran).0 k ≡ table k
unfolding iteration
iteration_twice long_bits table n ran k =
    let rounds = n * 4 % 2 ^ long_bits in
    let m = mask rounds n ran k in
    updates-mask rounds n (updates rounds n table ran).0 ran k
    ∙ ap (λ x. bit_xor x m) (updates-mask rounds n table ran k)
    ∙ bit_xor_assoc (table k) m m
    ∙ rw (bit_xor_self m) (bit_xor_zero (table k))

run_iterations-cells :
    (long_bits j : ℕ) (table : Table) (n ran k : ℕ)
    → run_iterations long_bits (2 * j) table n ran k ≡ table k
unfolding run_iterations
run_iterations-cells long_bits zero table n ran k = refl
run_iterations-cells long_bits (suc j) table n ran k =
    let two_more : 2 * suc j ≡ suc (suc (2 * j)) = omega arith in
    ap (λ i. run_iterations long_bits i table n ran k) two_more
    ∙ run_iterations-cells long_bits j
        (iteration long_bits (iteration long_bits table n ran).0 n ran).0 n ran k
    ∙ iteration_twice long_bits table n ran k

-- With an even number of iterations, as the 4 of `main`, the benchmark leaves every cell of its table
-- of at most 2 ^ 31 entries, which an `int` indexes, as it was; it returns an error when it gets no
-- table.
pub run_kernel-even :
    (long_bits j n : ℕ) (table : Table)
    → n ≤ 2 ^ 31
    → (run_kernel long_bits none n (2 * j) ≡ none)
      × ((final : Table) × ((run_kernel long_bits (some table) n (2 * j) ≡ some final)
            × ((k : ℕ) → final k ≡ table k)))
unfolding run_kernel
run_kernel-even long_bits j n table indexed = (
  refl,
  (
    run_iterations long_bits (2 * j) table n (hpcc_starts (pos 0)),
    (refl, λ k. run_iterations-cells long_bits j table n (hpcc_starts (pos 0)) k),
  ),
)
