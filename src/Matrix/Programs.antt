-- ===== src/Matrix/Programs.antt =====
-- The four programs on arrays of `double`: dense_mm of studio15, and dense_mm, sparse_mm and
-- floyd_warshall of lab-1, whose arrays are mappings of the paging device.
use cse522s.Base.{
  ℕ, zero, suc, ◌+◌, ◌*◌, Bool, List, [], ◌∷◌, Option, none, some, ltb, if◌then◌else◌, u32,
}
use cse522s.Matrix.{write, cell, multiply}

-- How a program ends. An array is `none` when `mmap` failed: then the program goes on with NULL, and
-- `crashed` is its first access.
pub data Outcome {ℓ} (R : Type ℓ) : Type ℓ where
  usage : Outcome R
  too_large : Outcome R
  no_device : Outcome R
  crashed : Outcome R
  finished : Option (ℕ → R) → Outcome R  -- the array that the program computes

-- `sqrt_of_UINT32_MAX`
abbrev pub sqrt_of_uint32_max : ℕ
sqrt_of_uint32_max = 65_536

-- `DATA_SIZE`
abbrev pub data_size : ℕ
data_size = 512

-- What the programs use of their surroundings: `double`, and `atoi` as an `unsigned`.
pub record Machine {ℓ} (R : Type ℓ) : Type ℓ where
  pub add : R → R → R
  pub mul : R → R → R
  pub of_int : ℕ → R  -- the conversion of an `int`
  pub atoi : List ℕ → ℕ
  pub rand : ℕ → ℕ  -- the results, by the number of the call

module _ {ℓ} {R : Type ℓ} (machine : Machine R) where
  -- The three arrays of studio15's program, filled in one loop.
  unfoldable pub generate : (rounds index : ℕ) → (a b c : ℕ → R) → (ℕ → R) × ((ℕ → R) × (ℕ → R))
  generate zero index a b c = (a, (b, c))
  generate (suc rounds) index a b c =
      generate rounds (suc index) (write a index (machine.of_int (machine.rand (index * 2))))
        (write b index (machine.of_int (machine.rand (index * 2 + 1))))
        (write c index (machine.of_int 0))

  -- studio15's `main`: the product at the end. `memory` is what `malloc` gave.
  unfoldable pub studio_dense_mm : (memory : ℕ → R) → List (List ℕ) → Outcome R
  studio_dense_mm memory (arg ∷ []) =
      let matrix_size = u32 (machine.atoi arg) in
      let arrays = generate (u32 (matrix_size * matrix_size)) 0 memory memory memory in
      if ltb sqrt_of_uint32_max matrix_size
      then too_large
      else finished
          (some (multiply machine.add machine.mul matrix_size arrays.0 arrays.1.0 arrays.1.1))
  studio_dense_mm memory _ = usage

  -- The loops of a program on arrays that may be NULL.
  abbrev pub multiply_mapped : (matrix_size : ℕ) → (a b c : Option (ℕ → R)) → Outcome R
  multiply_mapped zero a b c = finished c
  multiply_mapped (suc n) (some a) (some b) (some c) =
      finished (some (multiply machine.add machine.mul (suc n) a b c))
  multiply_mapped (suc n) _ _ _ = crashed

  -- lab-1's `main`: `device` says whether `open` succeeds, the arrays are what `mmap_malloc` returns.
  unfoldable pub lab_dense_mm :
      (device : Bool) → (a b c : Option (ℕ → R)) → List (List ℕ) → Outcome R
  lab_dense_mm device a b c (arg ∷ []) =
      let matrix_size = u32 (machine.atoi arg) in
      if ltb sqrt_of_uint32_max matrix_size
      then too_large
      else if device
      then multiply_mapped matrix_size a b c
      else no_device
  lab_dense_mm device a b c _ = usage

  -- The loops of sparse_mm, for the rounds left. `calls` counts the calls of `rand`.
  unfoldable pub assign_cols : (rounds matrix_size row col calls : ℕ) → (ℕ → R) → ℕ → R
  assign_cols zero matrix_size row col calls a = a
  assign_cols (suc rounds) matrix_size row col calls a =
      assign_cols rounds matrix_size row (suc col) (suc calls)
        (write a (cell matrix_size row col) (machine.of_int (machine.rand calls)))

  unfoldable pub assign_rows : (rounds matrix_size row : ℕ) → (ℕ → R) → ℕ → R
  assign_rows zero matrix_size row a = a
  assign_rows (suc rounds) matrix_size row a =
      assign_rows rounds matrix_size (suc row)
        (assign_cols matrix_size matrix_size row 0 (row * matrix_size) a)

  -- Without an array all goes well as long as no cell is assigned.
  abbrev pub assign_mapped : (n matrix_size : ℕ) → Option (ℕ → R) → Outcome R
  assign_mapped n matrix_size (some a) = finished (some (assign_rows n matrix_size 0 a))
  assign_mapped (suc n) (suc m) none = crashed
  assign_mapped n matrix_size none = finished none

  unfoldable pub sparse_mm : (device : Bool) → (a : Option (ℕ → R)) → List (List ℕ) → Outcome R
  sparse_mm device a (size ∷ rows ∷ []) =
      let matrix_size = u32 (machine.atoi size) in
      let n = u32 (machine.atoi rows) in
      if ltb sqrt_of_uint32_max matrix_size
      then too_large
      else if device
      then assign_mapped n matrix_size a
      else no_device
  sparse_mm device a _ = usage

  -- The loops of floyd_warshall: all cells of `A` are set to 1, then rows of `A` are copied to `B`.
  unfoldable pub fill_row : (rounds i j : ℕ) → (ℕ → R) → ℕ → R
  fill_row zero i j a = a
  fill_row (suc rounds) i j a =
      fill_row rounds i (suc j) (write a (i * data_size + j) (machine.of_int 1))

  unfoldable pub fill_rows : (rounds i : ℕ) → (ℕ → R) → ℕ → R
  fill_rows zero i a = a
  fill_rows (suc rounds) i a = fill_rows rounds (suc i) (fill_row data_size i 0 a)

  unfoldable pub copy_row : (rounds k i : ℕ) → (a b : ℕ → R) → ℕ → R
  copy_row zero k i a b = b
  copy_row (suc rounds) k i a b =
      copy_row rounds k (suc i) a (write b (k * data_size + i) (a (k * data_size + i)))

  unfoldable pub copy_rows : (rounds k : ℕ) → (a b : ℕ → R) → ℕ → R
  copy_rows zero k a b = b
  copy_rows (suc rounds) k a b = copy_rows rounds (suc k) a (copy_row data_size k 0 a b)

  abbrev pub copy_mapped : (n : ℕ) → (a b : Option (ℕ → R)) → Outcome R
  copy_mapped n none b = crashed
  copy_mapped n (some a) (some b) = finished (some (copy_rows n 0 (fill_rows data_size 0 a) b))
  copy_mapped zero (some a) none = finished none
  copy_mapped (suc n) (some a) none = crashed

  -- `B` at the end
  unfoldable pub floyd_warshall :
      (device : Bool) → (a b : Option (ℕ → R)) → List (List ℕ) → Outcome R
  floyd_warshall device a b (arg ∷ []) =
      let n = u32 (machine.atoi arg) in
      if ltb data_size n then too_large else if device then copy_mapped n a b else no_device
  floyd_warshall device a b _ = usage
