-- ===== src/KernelMemory.antt =====
-- studio4/kernel_memory.c: the order of a page block, and the structs written into the pages and
-- checked again. `my_get_order` also stands in final_project/module_template.c.
pub mod Order
pub mod Layout
pub mod Thread
mod Tests
use Prim.Native.Nat.{bit_and}
use cse522s.Base.{
  ℕ, zero, suc, ◌+◌, ◌-◌, ◌*◌, ◌/◌, ◌%◌, Option, none, some, Bool, List, [], ◌∷◌, ◌==◌,
  if◌then◌else◌, u32,
}

-- `while (nr_pages > 0) { nr_pages >>= 1; shifts++; }`; `none` is that the fuel ran out.
pub count_shifts : ℕ → (nr_pages shifts : ℕ) → Option ℕ
count_shifts zero n shifts = if n == 0 then some shifts else none
count_shifts (suc fuel) n shifts =
    let rest = count_shifts fuel (n / 2) (u32 (shifts + 1)) in if n == 0 then some shifts else rest

-- An `unsigned int` is 0 after 32 shifts.
pub my_get_order : ℕ → Option ℕ
my_get_order nr_pages =
    if nr_pages == 0
    then some 0
    else count_shifts 32 (if bit_and nr_pages (nr_pages - 1) == 0 then nr_pages - 1 else nr_pages) 0

-- `PAGE_SIZE` and `sizeof(datatype)`
abbrev pub page_size : ℕ
page_size = 4096

abbrev pub struct_size : ℕ
struct_size = 32

abbrev pub arr_size : ℕ
arr_size = 8

-- `tail`: 0 if the structs fill less than one page, else 1.
pub tail_pages : ℕ → ℕ
tail_pages nr_structs = if u32 (nr_structs * struct_size) / page_size == 0 then 0 else 1

pub nr_pages : ℕ → ℕ
nr_pages nr_structs = u32 (u32 (nr_structs * struct_size) / page_size + tail_pages nr_structs)

-- `nr_structs / nr_pages`; `none` is the division by zero.
pub nr_structs_per_page : ℕ → Option ℕ
nr_structs_per_page nr_structs =
    if nr_pages nr_structs == 0 then none else some (nr_structs / nr_pages nr_structs)

-- `i * nr_structs_per_page * 8 + j * 8 + k`, what the thread writes and later expects.
pub cell_value : (per_page i j k : ℕ) → ℕ
cell_value per_page i j k = u32 (i * per_page * 8 + j * 8 + k)

-- The byte offset of `array[k]` of struct `j` in page `i`, from the start of the block.
pub cell_offset : (i j k : ℕ) → ℕ
cell_offset i j k = i * page_size + (j * 32 + k * 4)

-- The block of pages, by byte offset of its 4-byte cells.
abbrev pub Memory : Type 0
Memory = ℕ → ℕ

abbrev pub store : Memory → ℕ → ℕ → Memory
store m o v p = if p == o then v else m p

module _ (per_page : ℕ) where
  -- The loops that write, each with the rounds left and its variable.
  pub write_cells : ℕ → (i j k : ℕ) → Memory → Memory
  write_cells zero i j k m = m
  write_cells (suc n) i j k m =
      write_cells n i j (k + 1) (store m (cell_offset i j k) (cell_value per_page i j k))

  pub write_structs : ℕ → (i j : ℕ) → Memory → Memory
  write_structs zero i j m = m
  write_structs (suc n) i j m = write_structs n i (j + 1) (write_cells arr_size i j 0 m)

  pub write_pages : ℕ → (i : ℕ) → Memory → Memory
  write_pages zero i m = m
  write_pages (suc n) i m = write_pages n (i + 1) (write_structs per_page i 0 m)

  -- The loops that check, with the number of errors printed.
  pub check_cells : ℕ → (i j k : ℕ) → Memory → ℕ
  check_cells zero i j k m = 0
  check_cells (suc n) i j k m =
      (if m (cell_offset i j k) == cell_value per_page i j k then 0 else 1)
      + check_cells n i j (k + 1) m

  pub check_structs : ℕ → (i j : ℕ) → Memory → ℕ
  check_structs zero i j m = 0
  check_structs (suc n) i j m = check_cells arr_size i j 0 m + check_structs n i (j + 1) m

  pub check_pages : ℕ → (i : ℕ) → Memory → ℕ
  check_pages zero i m = 0
  check_pages (suc n) i m = check_structs per_page i 0 m + check_pages n (i + 1) m

-- How the thread function ends.
pub data Outcome : Type 0 where
  divided_by_zero : Outcome
  no_memory : Outcome  -- `return -ENOMEM`
  finished : (errors : ℕ) → Outcome  -- the pages are freed

-- `thread_fn`, where `alloc_pages` returns a block or not. The wait for `kthread_should_stop` stands
-- between the two passes and touches no memory.
pub thread_fn : (nr_structs : ℕ) → (alloc_pages : ℕ → Option Memory) → Option Outcome
thread_fn nr_structs alloc_pages = elim (nr_structs_per_page nr_structs) [
  | none ↦ some divided_by_zero
  | some per_page ↦ elim (my_get_order (nr_pages nr_structs)) [
    | none ↦ none
    | some order ↦ elim (alloc_pages order) [
      | none ↦ some no_memory
      | some m ↦
          let n = nr_pages nr_structs in
          some (finished (check_pages per_page n 0 (write_pages per_page n 0 m)))
    ]
  ]
]
