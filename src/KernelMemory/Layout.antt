-- ===== src/KernelMemory/Layout.antt =====
-- How many pages and structs, and that the structs lie inside their pages.
use native.Mathlib.Nat.{div-add-mod}
use cse522s.Base.{ℕ, ◌+◌, ◌*◌, ◌/◌, ◌^◌, ◌≤◌, ◌<◌, ◌≡◌, ◌↔◌, refl, none, some, arith, u32}
use cse522s.KernelMemory.{page_size, struct_size, tail_pages, nr_pages, nr_structs_per_page}

-- With fewer structs than one page holds, no page is counted, and the thread divides by zero.
pub nr_structs_per_page-none :
    (n : ℕ) → (nr_structs_per_page n ≡ none) ↔ (u32 (n * struct_size) < page_size)
unfolding nr_structs_per_page nr_pages tail_pages
nr_structs_per_page-none n = ground arith

pub nr_pages_lem : (n : ℕ) → 128 ≤ n → n < 2 ^ 27 → nr_pages n ≡ n / 128 + 1
unfolding nr_pages tail_pages
nr_pages_lem n lo hi = ground arith

quotient_small : (n q d : ℕ) → 0 < d → n < 128 * d → n / d ≡ q → q < 128
quotient_small n q d pos lt e = grind (arith, div-add-mod n d)

-- For 128 structs or more, whose bytes an `unsigned int` counts: the structs of a page lie in it.
pub nr_structs_per_page-fits :
    (n : ℕ)
    → 128 ≤ n
    → n < 2 ^ 27
    → (p : ℕ) × (nr_structs_per_page n ≡ some p)
      × (p * struct_size ≤ page_size)
      × (nr_pages n * p ≤ n)
unfolding nr_structs_per_page
nr_structs_per_page-fits n lo hi =
    let e = nr_pages_lem n lo hi in
    (
      n / nr_pages n,
      ground (arith, e),
      omega (
        arith,
        quotient_small n (n / nr_pages n) (nr_pages n) (omega (arith, e)) (omega (arith, e)) refl,
      ),
      omega (arith, div-add-mod n (nr_pages n)),
    )
