-- ===== src/Matrix/Tests.antt =====
-- A product of size 2, wrong arguments, rows copied, and a matrix that the other thread changes.
use cse522s.Base.{ℕ, ◌+◌, ◌*◌, ◌≤◌, ◌<◌, ◌≡◌, refl, true, some, [], ◌∷◌, arith}
use cse522s.Matrix.{multiply}
use cse522s.Matrix.Programs.{Machine, too_large, studio_dense_mm}
use cse522s.Matrix.Gdb.{assertion_failed, completed, gdb_main, write}
use cse522s.Matrix.Product.{dot, multiply-dot}

abbrev add : ℕ → ℕ → ℕ
add x y = x + y

abbrev mul : ℕ → ℕ → ℕ
mul x y = x * y

abbrev cells : ℕ → ℕ
cells i = i + 1

multiply-dot_example :
    ((row col : ℕ)
      → row < 2
      → col < 2
      → multiply add mul 2 cells cells (λ k. 0) (row * 2 + col)
        ≡ dot add mul 2 cells cells 2 row col 0 0)
    × ((k : ℕ) → 2 * 2 ≤ k → multiply add mul 2 cells cells (λ k. 0) k ≡ 0)
multiply-dot_example = multiply-dot add mul 2 cells cells (λ k. 0) (omega arith)

lower_right : multiply add mul 2 cells cells (λ k. 0) 3 ≡ 22
unfolding multiply cse522s.Matrix.multiply_rows cse522s.Matrix.multiply_cols
    cse522s.Matrix.multiply_index
lower_right = refl

abbrev machine : Machine ℕ
machine = record { add = add; mul = mul; of_int = λ i. i; atoi = λ arg. 65_537; rand = λ i. i }

too_many : studio_dense_mm machine (λ k. 0) ((54 ∷ []) ∷ []) ≡ too_large
unfolding studio_dense_mm
too_many = refl

changed : gdb_main 3 3 true (λ x y. 0) (some (λ m. write m 2 1 7)) ≡ assertion_failed 2 1
unfolding gdb_main cse522s.Matrix.Gdb.fill_rows cse522s.Matrix.Gdb.fill_cols
    cse522s.Matrix.Gdb.check_rows cse522s.Matrix.Gdb.check_cols
changed = refl

unchanged_matrix : gdb_main 3 3 true (λ x y. 0) (some (λ m. m)) ≡ completed
unfolding gdb_main cse522s.Matrix.Gdb.fill_rows cse522s.Matrix.Gdb.fill_cols
    cse522s.Matrix.Gdb.check_rows cse522s.Matrix.Gdb.check_cols
unchanged_matrix = refl
