-- ===== src/Paging.antt =====
-- lab-1/mod/paging.c: a device whose mappings get their pages on demand, or at once.
pub mod Order
pub mod Counts
pub mod Accounts
pub mod Safety
pub mod Device
mod Tests
use cse522s.Base.{
  ℕ, zero, suc, ◌+◌, ◌-◌, ◌*◌, ◌/◌, ◌%◌, ◌^◌, ◌<◌, ◌≡◌, Bool, true, false, not, Option, none, some,
  List, [], ◌∷◌, length, ltb, ◌==◌, if◌then◌else◌, u32, ℤ, pos, negsuc,
}

pub record PrivateData : Type 0 where
  pub reference : ℕ  -- atomic_t, as its 32-bit pattern
  pub pagelist : List ℕ  -- the page of each cell, the last first

-- A block that the module gives back to the kernel by address.
pub data Call : Type 0 where
  free_pages : (address order : ℕ) → Call

-- The private data of the mappings by number (`none` is freed or not yet allocated), the two
-- counters, and how many pages the kernel has handed out and not got back. The last two count accesses
-- to cells that are freed; a freed cell is taken to hold what it held.
pub record State : Type 0 where
  pub private_data : ℕ → Option PrivateData
  pub next : ℕ
  pub alloc_number : ℕ
  pub free_number : ℕ
  pub held : ℕ
  pub calls : List Call
  pub stale_reads : ℕ
  pub stale_writes : ℕ

pub data Fault : Type 0 where
  oom : Fault
  sigbus : Fault
  nopage : Fault
  oops : Fault  -- an access through NULL or to freed memory

-- The addresses of a VMA.
pub record Vma : Type 0 where
  pub vm_start : ℕ
  pub vm_end : ℕ

abbrev pub update : (ℕ → Option PrivateData) → ℕ → Option PrivateData → ℕ → Option PrivateData
update f i v k = if k == i then v else f k

-- `remap_pfn_range(…) == -1`
abbrev pub is_minus_one : ℤ → Bool
is_minus_one (negsuc zero) = true
is_minus_one _ = false

abbrev pub is_zero : ℤ → Bool
is_zero (pos zero) = true
is_zero _ = false

-- What follows a page that was mapped: `cell` says that `kmalloc` returned memory.
abbrev pub add_page : (id page : ℕ) (cell : Bool) → Option PrivateData → State → Fault × State
add_page id page cell none s = (oops, s)
add_page id page false (some p) s = (oops, s)
add_page id page true (some p) s = (
  nopage,
  record s {
    private_data = update s.private_data id (some (record p { pagelist = page ∷ p.pagelist }));
  },
)

-- The arguments after `id` are what `alloc_page`, `remap_pfn_range` and `kmalloc` return.
pub do_fault : (id : ℕ) (page : Option ℕ) (remap : ℤ) (cell : Bool) → State → Fault × State
do_fault id none remap cell s = (oom, s)
do_fault id (some page) remap cell s =
    if is_minus_one remap
    then (sigbus, record s { held = suc s.held })
    else add_page id page cell (s.private_data id)
        (record s { held = suc s.held; alloc_number = u32 (s.alloc_number + 1) })

-- `none`: the private data is freed memory.
pub paging_vma_open : (id : ℕ) → State → Option State
paging_vma_open id s = elim (s.private_data id) [
  | none ↦ none
  | some p ↦ some (record s {
    private_data = update s.private_data id (some (record p { reference = u32 (p.reference + 1) }));
  })
]

-- The loop over the cells: after each, `list_for_each_entry` reads the next one from the cell that was
-- just freed.
abbrev pub free_cells : List ℕ → State → State
free_cells [] s = s
free_cells (page ∷ pagelist) s = free_cells pagelist (record s {
  free_number = u32 (s.free_number + 1);
  held = s.held - 1;
  stale_reads = suc s.stale_reads;
})

-- `list_del` of the head writes to the first and the last cell, which are freed by then.
abbrev pub list_del_writes : List ℕ → ℕ
list_del_writes [] = 0
list_del_writes (page ∷ pagelist) = 2

-- `length % PAGE_SIZE ? length / PAGE_SIZE + 1 : length / PAGE_SIZE`
abbrev pub page_num : ℕ → ℕ
page_num n = if n % 4096 == 0 then n / 4096 else n / 4096 + 1

-- `while ((1 << order) < page_num) order++;`, `none` when the fuel ran out.
pub find_order : (fuel order pages : ℕ) → Option ℕ
find_order zero order pages = if ltb (2 ^ order) pages then none else some order
find_order (suc fuel) order pages =
    let rest = find_order fuel (u32 (order + 1)) pages in
    if ltb (2 ^ order) pages then rest else some order

-- The order of the block for a mapping, whose length is an `unsigned int`.
pub vma_order : Vma → Option ℕ
vma_order vma = find_order 31 0 (page_num (u32 (vma.vm_end - vma.vm_start)))

-- The last `close` of a mapping.
pub release : (demand_paging : Bool) → Vma → ℕ → PrivateData → State → Option State
release true vma id p s =
    let freed = free_cells p.pagelist s in
    some (record freed {
      private_data = update freed.private_data id none;
      stale_writes = freed.stale_writes + list_del_writes p.pagelist;
    })
release false vma id p s = elim (vma_order vma) [
  | none ↦ none
  | some order ↦ some (record s {
    calls = Call.free_pages vma.vm_start order ∷ s.calls;
    private_data = update s.private_data id none;
  })
]

pub paging_vma_close : (demand_paging : Bool) → Vma → (id : ℕ) → State → Option State
paging_vma_close demand_paging vma id s = elim (s.private_data id) [
  | none ↦ none
  | some p ↦
      let r = u32 (p.reference + (2 ^ 32 - 1)) in
      let kept = record s {
        private_data = update s.private_data id (some (record p { reference = r }));
      } in
      let freed = release demand_paging vma id p s in if r == 0 then freed else some kept
]

-- `pages` and `remap` are what `alloc_pages` and `remap_pfn_range` return.
pub do_prepaging : Vma → (pages : ℕ → Option ℕ) (remap : ℤ) → State → Fault × State
do_prepaging vma pages remap s = elim (vma_order vma) [
  | none ↦ (oops, s)
  | some order ↦ elim (pages order) [
    | none ↦ (oom, s)
    | some block ↦
        (if is_zero remap then nopage else sigbus, record s { held = s.held + 2 ^ order })
  ]
]

abbrev pub mmap_result : Fault → ℤ
mmap_result oom = negsuc 11  -- -ENOMEM
mmap_result sigbus = negsuc 13  -- -EFAULT
mmap_result nopage = pos 0
mmap_result oops = pos 1

-- What `paging_mmap` returns; `allocated` says that `kmalloc` returned memory, and `none` is the
-- access through NULL. The new private data has the number `next`.
pub paging_mmap :
    (demand_paging : Bool)
    → Vma
    → (allocated : Bool) (pages : ℕ → Option ℕ) (remap : ℤ) → State
    → Option (ℤ × State)
paging_mmap demand_paging vma allocated pages remap s =
    let s' = record s {
      private_data = update s.private_data s.next (some (record { reference = 1; pagelist = [] }));
      next = suc s.next;
    } in
    let prepaged = do_prepaging vma pages remap s' in
    if allocated
    then some (if demand_paging then (pos 0, s') else (mmap_result prepaged.0, prepaged.1))
    else none
