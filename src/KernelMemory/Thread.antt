-- ===== src/KernelMemory/Thread.antt =====
-- The two passes of `thread_fn`: what the first writes the second finds.
use native.Mathlib.Decide.{ℕ_discrete}
use cse522s.Base.{
  ℕ, zero, suc, ◌+◌, ◌*◌, ◌^◌, ◌≤◌, ◌<◌, ◌≡◌, ◌∙◌, ◌⊎◌, inl, refl, sym, Option, none, some, arith,
}
use cse522s.KernelMemory.{
  Memory, Outcome, page_size, struct_size, arr_size, nr_pages, store, cell_value, cell_offset,
  write_cells, write_structs, write_pages, check_cells, check_structs, check_pages, thread_fn,
}
use cse522s.KernelMemory.Layout.{nr_pages_lem, nr_structs_per_page-none, nr_structs_per_page-fits}
use cse522s.KernelMemory.Order.{my_get_order-IsOrder}

-- An offset outside the bytes from `lo` up to `hi`.
abbrev Outside : (o lo hi : ℕ) → Type 0
Outside o lo hi = (o < lo) ⊎ (hi ≤ o)

module _ (p : ℕ) where
  cells-frame :
      (n i j k o : ℕ) (m : Memory)
      → Outside o (i * 4096 + (j * 32 + k * 4)) (i * 4096 + (j * 32 + (k + n) * 4))
      → write_cells p n i j k m o ≡ m o
  unfolding write_cells cell_offset
  cells-frame zero i j k o m out = refl
  cells-frame (suc n) i j k o m out =
      let m1 = store m (cell_offset i j k) (cell_value p i j k) in
      cells-frame n i j (k + 1) o m1 (ground arith) ∙ ground arith

  cells-hold :
      (n i j k c : ℕ) (m : Memory)
      → k ≤ c
      → c < k + n
      → write_cells p n i j k m (cell_offset i j c) ≡ cell_value p i j c
  unfolding write_cells cell_offset
  cells-hold zero i j k c m lo hi = absurd (omega arith)
  cells-hold (suc n) i j k c m lo hi = elim (ℕ_discrete k c) [
    | yes e ↦
        cells-frame n i j (k + 1) (cell_offset i j c)
          (store m (cell_offset i j k) (cell_value p i j k)) (inl (omega (arith, e)))
        ∙ ground (arith, e)
    | no ne ↦ cells-hold n i j (k + 1) c _ (omega arith) (omega arith)
  ]

  structs-frame :
      (n i j o : ℕ) (m : Memory)
      → Outside o (i * 4096 + j * 32) (i * 4096 + (j + n) * 32)
      → write_structs p n i j m o ≡ m o
  unfolding write_structs
  structs-frame zero i j o m out = refl
  structs-frame (suc n) i j o m out =
      structs-frame n i (j + 1) o (write_cells p arr_size i j 0 m) (ground arith)
      ∙ cells-frame arr_size i j 0 o m (ground arith)

  structs-hold :
      (n i j a c : ℕ) (m : Memory)
      → j ≤ a
      → a < j + n
      → c < arr_size
      → write_structs p n i j m (cell_offset i a c) ≡ cell_value p i a c
  unfolding write_structs cell_offset
  structs-hold zero i j a c m lo hi in_array = absurd (omega arith)
  structs-hold (suc n) i j a c m lo hi in_array = elim (ℕ_discrete j a) [
    | yes e ↦
        structs-frame n i (j + 1) (cell_offset i a c) (write_cells p arr_size i j 0 m)
          (inl (omega (arith, e)))
        ∙ rw (sym e) (cells-hold arr_size i j 0 c m (omega arith) (omega arith))
    | no ne ↦ structs-hold n i (j + 1) a c _ (omega arith) (omega arith) in_array
  ]

  -- The structs of a page end before the next page.
  pages-frame :
      (n i o : ℕ) (m : Memory)
      → p * struct_size ≤ page_size
      → Outside o (i * 4096) ((i + n) * 4096)
      → write_pages p n i m o ≡ m o
  unfolding write_pages
  pages-frame zero i o m fits out = refl
  pages-frame (suc n) i o m fits out =
      pages-frame n (i + 1) o (write_structs p p i 0 m) fits (ground arith)
      ∙ structs-frame p i 0 o m (ground arith)

  pages-hold :
      (n i h a c : ℕ) (m : Memory)
      → p * struct_size ≤ page_size
      → i ≤ h
      → h < i + n
      → a < p
      → c < arr_size
      → write_pages p n i m (cell_offset h a c) ≡ cell_value p h a c
  unfolding write_pages cell_offset
  pages-hold zero i h a c m fits lo hi in_page in_array = absurd (omega arith)
  pages-hold (suc n) i h a c m fits lo hi in_page in_array = elim (ℕ_discrete i h) [
    | yes e ↦
        pages-frame n (i + 1) (cell_offset h a c) (write_structs p p i 0 m) fits
          (inl (omega (arith, e)))
        ∙ rw (sym e) (structs-hold p i 0 a c m (omega arith) (omega arith) in_array)
    | no ne ↦ pages-hold n (i + 1) h a c _ fits (omega arith) (omega arith) in_page in_array
  ]

  module _ (m : Memory) where
    cells-pass :
        (n i j k : ℕ)
        → ((c : ℕ) → k ≤ c → c < k + n → m (cell_offset i j c) ≡ cell_value p i j c)
        → check_cells p n i j k m ≡ 0
    unfolding check_cells
    cells-pass zero i j k hold = refl
    cells-pass (suc n) i j k hold = ground (
      arith,
      hold k (omega arith) (omega arith),
      cells-pass n i j (k + 1) (λ c lo hi. hold c (omega arith) (omega arith)),
    )

    structs-pass :
        (n i j : ℕ)
        → ((a c : ℕ) → a < j + n → c < arr_size → m (cell_offset i a c) ≡ cell_value p i a c)
        → check_structs p n i j m ≡ 0
    unfolding check_structs
    structs-pass zero i j hold = refl
    structs-pass (suc n) i j hold = omega (
      arith,
      cells-pass arr_size i j 0 (λ c lo hi. hold j c (omega arith) (omega arith)),
      structs-pass n i (j + 1) (λ a c hi in_array. hold a c (omega arith) in_array),
    )

    pages-pass :
        (n i : ℕ)
        → ((h a c : ℕ)
            → i ≤ h
            → h < i + n
            → a < p
            → c < arr_size
            → m (cell_offset h a c) ≡ cell_value p h a c)
        → check_pages p n i m ≡ 0
    unfolding check_pages
    pages-pass zero i hold = refl
    pages-pass (suc n) i hold = omega (
      arith,
      structs-pass p i 0
          (λ a c hi in_array. hold i a c (omega arith) (omega arith) (omega arith) in_array),
      pages-pass n (i + 1)
          (λ h a c lo hi in_page in_array. hold h a c (omega arith) (omega arith) in_page in_array),
    )

  -- When the structs of a page fit in it, the second pass over the pages that the first has
  -- written prints no error.
  pub check_pages-write_pages :
      (n : ℕ) (m : Memory)
      → p * struct_size ≤ page_size
      → check_pages p n 0 (write_pages p n 0 m) ≡ 0
  check_pages-write_pages n m fits =
      pages-pass (write_pages p n 0 m) n 0
        (λ h a c lo hi in_page in_array. pages-hold n 0 h a c m fits lo hi in_page in_array)

few_structs :
    (n : ℕ) (alloc_pages : ℕ → Option Memory)
    → n < 128
    → thread_fn n alloc_pages ≡ some Outcome.divided_by_zero
unfolding thread_fn
few_structs n alloc_pages h = rw (thread_fn, (nr_structs_per_page-none n).1 (omega arith)) refl

abbrev pub Runs : (n : ℕ) (alloc_pages : ℕ → Option Memory) → Type 0
Runs n alloc_pages =
    (order : ℕ) × (nr_pages n ≤ 2 ^ order)
    × (2 ^ order < 2 * nr_pages n)
    × (alloc_pages order ≡ none → thread_fn n alloc_pages ≡ some Outcome.no_memory)
    × ((m : Memory)
        → alloc_pages order ≡ some m
        → thread_fn n alloc_pages ≡ some (Outcome.finished 0))

many_structs : (n : ℕ) (alloc_pages : ℕ → Option Memory) → 128 ≤ n → n < 2 ^ 27 → Runs n alloc_pages
unfolding thread_fn
many_structs n alloc_pages h small =
    let (p, e, fits, within) = nr_structs_per_page-fits n h small in
    let count = nr_pages_lem n h small in
    let (order, o, (covers, least)) =
      my_get_order-IsOrder (nr_pages n) (omega (arith, count)) (omega (arith, count)) in
    (
      order,
      covers,
      least,
      λ refused. rw (thread_fn, e, o, refused) refl,
      λ m given. rw (thread_fn, e, o, given, check_pages-write_pages p (nr_pages n) m fits) refl,
    )

-- What `thread_fn` returns for fewer than 2 ^ 27 structs: it divides by zero when there are fewer
-- than 128, and otherwise asks for a block whose order is the least for its pages, returns -ENOMEM
-- when it gets none, and finishes without an error printed when it gets one.
pub thread_fn_lem :
    (n : ℕ) (alloc_pages : ℕ → Option Memory)
    → n < 2 ^ 27
    → (n < 128 → thread_fn n alloc_pages ≡ some Outcome.divided_by_zero)
      × (128 ≤ n → Runs n alloc_pages)
thread_fn_lem n alloc_pages small =
    (few_structs n alloc_pages, λ h. many_structs n alloc_pages h small)
