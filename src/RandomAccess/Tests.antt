-- ===== src/RandomAccess/Tests.antt =====
-- Eight entries; the register at step 5 and at step -6; a size that is no power of two.
use cse522s.Base.{ℕ, ◌*◌, ◌+◌, ◌≡◌, refl, none, some, arith, pos, negsuc, [], ◌∷◌}
use Prim.Native.Nat.{bit_xor}
use cse522s.RandomAccess.{
  Table, updates, advance, iteration, run_kernel, hpcc_starts, usage, random_access_main,
}
use cse522s.RandomAccess.Register.{steps}
use cse522s.RandomAccess.Jump.{hpcc_starts-steps}
use cse522s.RandomAccess.Twice.{mask, updates-mask, iteration_twice, run_kernel-even}

abbrev table : Table
table i = i * i + 1

wraps_round : advance 9223372036854775809 ≡ 5
unfolding advance
wraps_round = refl

two_iterations : (iteration 64 (iteration 64 table 8 1).0 8 1).0 3 ≡ table 3
two_iterations = iteration_twice 64 table 8 1 3

run_kernel-even_example :
    (run_kernel 64 none 8 (2 * 2) ≡ none)
    × ((final : Table) × ((run_kernel 64 (some table) 8 (2 * 2) ≡ some final)
          × ((k : ℕ) → final k ≡ table k)))
run_kernel-even_example = run_kernel-even 64 2 8 table (omega arith)

masked : (updates 32 8 table 1).0 3 ≡ bit_xor (table 3) (mask 32 8 1 3)
masked = updates-mask 32 8 table 1 3

hpcc_starts-steps_example :
    (hpcc_starts (pos 5) ≡ steps 5 1) × (steps 6 (hpcc_starts (negsuc 5)) ≡ 1)
hpcc_starts-steps_example = hpcc_starts-steps 5 (omega arith)

three_entries : random_access_main 64 (λ arg. 24) (λ n. none) ((48 ∷ []) ∷ []) ≡ usage
unfolding random_access_main
three_entries = refl
