-- ===== src/KernelMemory/Tests.antt =====
-- The module at its default of 2000 structs, which fill 16 pages.
use cse522s.Base.{ℕ, ◌*◌, ◌≤◌, ◌<◌, ◌≡◌, refl, Option, some, arith}
use cse522s.KernelMemory.{
  Memory, Outcome, page_size, struct_size, nr_pages, nr_structs_per_page, my_get_order, write_pages,
  check_pages, thread_fn,
}
use cse522s.KernelMemory.Order.{my_get_order-IsOrder, IsOrder}
use cse522s.KernelMemory.Layout.{nr_structs_per_page-fits}
use cse522s.KernelMemory.Thread.{check_pages-write_pages, thread_fn_lem, Runs}

default_pages : nr_pages 2000 ≡ 16
unfolding nr_pages cse522s.KernelMemory.tail_pages
default_pages = refl

order_of_17 : my_get_order 17 ≡ some 5
unfolding my_get_order cse522s.KernelMemory.count_shifts
order_of_17 = refl

abbrev blank : Memory
blank o = 0

abbrev alloc_pages : ℕ → Option Memory
alloc_pages order = some blank

my_get_order-IsOrder_example : (d : ℕ) × (my_get_order 16 ≡ some d) × IsOrder 16 d
my_get_order-IsOrder_example = my_get_order-IsOrder 16 (omega arith) (omega arith)

nr_structs_per_page-fits_example :
    (p : ℕ) × (nr_structs_per_page 2000 ≡ some p)
    × (p * struct_size ≤ page_size)
    × (nr_pages 2000 * p ≤ 2000)
nr_structs_per_page-fits_example = nr_structs_per_page-fits 2000 (omega arith) (omega arith)

default_pages_checked : check_pages 125 16 0 (write_pages 125 16 0 blank) ≡ 0
default_pages_checked = check_pages-write_pages 125 16 blank (omega arith)

thread_fn_lem_example :
    (2000 < 128 → thread_fn 2000 alloc_pages ≡ some Outcome.divided_by_zero)
    × (128 ≤ 2000 → Runs 2000 alloc_pages)
thread_fn_lem_example = thread_fn_lem 2000 alloc_pages (omega arith)
