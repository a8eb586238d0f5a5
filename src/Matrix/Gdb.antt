-- ===== src/Matrix/Gdb.antt =====
-- studio9/gdb-matrix.c: a matrix of products, checked by the main thread. NR_ROWS, NR_COLS and the other
-- thread stand in a file that is not here.
use cse522s.Base.{
  ℕ, zero, suc, ◌*◌, ◌==◌, Bool, true, false, Option, none, some, if◌then◌else◌, u32,
}

-- `matrix[x][y]`, as the 32-bit pattern of an `int`
abbrev pub Matrix : Type 0
Matrix = ℕ → ℕ → ℕ

pub data Outcome : Type 0 where
  out_of_memory : Outcome
  no_thread : Outcome
  assertion_failed : (x y : ℕ) → Outcome
  completed : Outcome

abbrev pub write : Matrix → (x y value : ℕ) → Matrix
write m x y value i j = if i == x then if j == y then value else m i j else m i j

-- The two loops that fill it, each for the rounds left.
unfoldable pub fill_cols : (rounds x y : ℕ) → Matrix → Matrix
fill_cols zero x y m = m
fill_cols (suc rounds) x y m = fill_cols rounds x (suc y) (write m x y (u32 (x * y)))

unfoldable pub fill_rows : (nr_cols rounds x : ℕ) → Matrix → Matrix
fill_rows nr_cols zero x m = m
fill_rows nr_cols (suc rounds) x m = fill_rows nr_cols rounds (suc x) (fill_cols nr_cols x 0 m)

-- `matrix_fn`: the inner loop over `x` and the outer one over `y`. `seen` is the value that stands in a
-- cell when it is read, since the other thread may have changed it.
unfoldable pub check_rows : (rounds x y : ℕ) → (seen : Matrix) → Outcome → Outcome
check_rows zero x y seen rest = rest
check_rows (suc rounds) x y seen rest =
    let later = check_rows rounds (suc x) y seen rest in
    if seen x y == u32 (x * y) then later else assertion_failed x y

unfoldable pub check_cols : (nr_rows rounds y : ℕ) → (seen : Matrix) → Outcome
check_cols nr_rows zero y seen = completed
check_cols nr_rows (suc rounds) y seen =
    let later = check_cols nr_rows rounds (suc y) seen in check_rows nr_rows 0 y seen later

abbrev pub matrix_fn : (nr_rows nr_cols : ℕ) → (seen : Matrix) → Outcome
matrix_fn nr_rows nr_cols seen = check_cols nr_rows nr_cols 0 seen

-- `main`: `allocated` is false when one of the calls of `malloc` fails, `thread` what the other thread makes
-- of the matrix while it is checked, if it starts.
unfoldable pub gdb_main :
    (nr_rows nr_cols : ℕ)
    → (allocated : Bool) → (memory : Matrix) → (thread : Option (Matrix → Matrix)) → Outcome
gdb_main nr_rows nr_cols false memory thread = out_of_memory
gdb_main nr_rows nr_cols true memory none = no_thread
gdb_main nr_rows nr_cols true memory (some thread) =
    matrix_fn nr_rows nr_cols (thread (fill_rows nr_cols nr_rows 0 memory))
