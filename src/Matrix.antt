-- ===== src/Matrix.antt =====
-- The matrix programs: studio15/dense_mm.c, the programs of lab-1/user and studio9/gdb-matrix.c. An
-- array of `double` is a function from the index; the operations on `double` are parameters.
pub mod Programs
pub mod Gdb
pub mod Product
mod Tests
use cse522s.Base.{ℕ, zero, suc, ◌+◌, ◌*◌, ◌==◌, if◌then◌else◌, u32}

-- `row * matrix_size + col`, of `unsigned`s
abbrev pub cell : (matrix_size row col : ℕ) → ℕ
cell matrix_size row col = u32 (row * matrix_size + col)

module _ {ℓ} {R : Type ℓ} where
  abbrev pub write : (ℕ → R) → ℕ → R → ℕ → R
  write a i v k = if k == i then v else a k

  -- The three loops of the multiplication, each for the rounds left; `C` is returned.
  module _ (add mul : R → R → R) (matrix_size : ℕ) (a b : ℕ → R) where
    unfoldable pub multiply_index : (rounds row col index : ℕ) → (ℕ → R) → ℕ → R
    multiply_index zero row col index c = c
    multiply_index (suc rounds) row col index c = multiply_index rounds row col (suc index) (
        write c (cell matrix_size row col) (
          add (c (cell matrix_size row col))
            (mul (a (cell matrix_size row index)) (b (cell matrix_size index col)))))

    unfoldable pub multiply_cols : (rounds row col : ℕ) → (ℕ → R) → ℕ → R
    multiply_cols zero row col c = c
    multiply_cols (suc rounds) row col c =
        multiply_cols rounds row (suc col) (multiply_index matrix_size row col 0 c)

    unfoldable pub multiply_rows : (rounds row : ℕ) → (ℕ → R) → ℕ → R
    multiply_rows zero row c = c
    multiply_rows (suc rounds) row c =
        multiply_rows rounds (suc row) (multiply_cols matrix_size row 0 c)

    unfoldable pub multiply : (ℕ → R) → ℕ → R
    multiply c = multiply_rows matrix_size 0 c
