-- ===== src/Paging/Counts.antt =====
-- On-demand mode under all calls that the kernel makes, one at a time, and what holds after them of
-- the private data and the counters.
use cse522s.Base.{
  ℕ, zero, suc, ◌+◌, ◌-◌, ◌^◌, ◌≤◌, ◌<◌, ◌≡◌, sym, inl, inr, true, Option, none, some, [], length,
  arith, ◌==◌, if◌then◌else◌, u32, ℤ, pos, Bool-cases,
}
use mathlib.Core.Path.{subst}
use native.Mathlib.Decide.{ℕ_discrete}
use cse522s.Paging.{
  PrivateData, State, Fault, sigbus, Vma, update, do_fault, paging_vma_open, paging_vma_close,
  paging_mmap,
}

abbrev pub size : Option PrivateData → ℕ
size none = 0
size (some p) = length p.pagelist

-- The pages on the lists of the first `n` mappings.
abbrev pub total : ℕ → (ℕ → Option PrivateData) → ℕ
total zero f = 0
total (suc n) f = size (f n) + total n f

pub total-update :
    (n : ℕ) (f : ℕ → Option PrivateData) (i : ℕ) (v : Option PrivateData)
    → (i < n → total n (update f i v) + size (f i) ≡ total n f + size v)
      × (n ≤ i → total n (update f i v) ≡ total n f)
total-update zero f i v = ground arith
total-update (suc n) f i v = elim (ℕ_discrete n i) [
  | yes e ↦ ground (arith, e, total-update n f i v)
  | no ne ↦ ground (arith, ne, total-update n f i v)
]

-- What the kernel keeps: how many VMAs share each private data. `lost` counts the pages whose
-- `remap_pfn_range` returned -1.
pub record System : Type 0 where
  pub state : State
  pub vmas : ℕ → ℕ
  pub lost : ℕ

abbrev pub set_vmas : (ℕ → ℕ) → ℕ → ℕ → ℕ → ℕ
set_vmas f i v k = if k == i then v else f k

abbrev pub loses : Fault → ℕ
loses sigbus = 1
loses _ = 0

-- The calls of the kernel in on-demand mode: on a new mapping, on a page fault in a VMA, when a VMA
-- is split or copied, and when one is removed. A call ends before the next begins; the unlocked
-- `list_add` of faults at the same time is left out.
pub data Step (s : System) : System → Type 0 where
  mapped :
      {t : State} (vma : Vma) (pages : ℕ → Option ℕ) (remap : ℤ)
      → paging_mmap true vma true pages remap s.state ≡ some (pos 0, t)
      → Step s (record s { state = t; vmas = set_vmas s.vmas s.state.next 1 })
  faulted :
      (id : ℕ) (page : Option ℕ) (remap : ℤ)
      → 0 < s.vmas id
      → Step s (record s {
        state = (do_fault id page remap true s.state).1;
        lost = s.lost + loses (do_fault id page remap true s.state).0;
      })
  opened :
      {t : State} (id : ℕ)
      → 0 < s.vmas id
      → s.vmas id + 1 < 2 ^ 32
      → paging_vma_open id s.state ≡ some t
      → Step s (record s { state = t; vmas = set_vmas s.vmas id (s.vmas id + 1) })
  closed :
      {t : State} (vma : Vma) (id : ℕ)
      → 0 < s.vmas id
      → paging_vma_close true vma id s.state ≡ some t
      → Step s (record s { state = t; vmas = set_vmas s.vmas id (s.vmas id - 1) })

pub data Reaches (s : System) : System → Type 0 where
  here : Reaches s s
  after : {t u : System} → Reaches s t → Step t u → Reaches s u

-- The module as it is loaded.
abbrev pub loaded : System
loaded = record {
  state = record {
    private_data = λ id. none;
    next = 0;
    alloc_number = 0;
    free_number = 0;
    held = 0;
    calls = [];
    stale_reads = 0;
    stale_writes = 0;
  };
  vmas = λ id. 0;
  lost = 0;
}

-- Private data is there as long as a VMA points to it, and counts these VMAs.
abbrev pub Live : Option PrivateData → ℕ → Type 0
Live none n = n ≡ 0
Live (some p) n = (p.reference ≡ n) × ((0 < n) × (n < 2 ^ 32))

pub record Inv (s : State) (vmas : ℕ → ℕ) (lost : ℕ) : Type 0 where
  pub live : (id : ℕ) → Live (s.private_data id) (vmas id)
  pub fresh : (id : ℕ) → s.next ≤ id → s.private_data id ≡ none
  pub count : s.alloc_number ≡ u32 (s.free_number + total s.next s.private_data)
  pub pages : s.held ≡ total s.next s.private_data + lost

pub Live-update :
    (f : ℕ → Option PrivateData) (v : ℕ → ℕ) (id n : ℕ) (q : Option PrivateData)
    → ((k : ℕ) → Live (f k) (v k))
    → Live q n
    → (k : ℕ) → Live (update f id q k) (set_vmas v id n k)
Live-update f v id n q live new k = elim (Bool-cases (k == id)) [
  | inl e ↦ rw e new
  | inr ne ↦ rw ne (live k)
]

pub Live-keep :
    (f : ℕ → Option PrivateData) (v : ℕ → ℕ) (id : ℕ) (q : Option PrivateData)
    → ((k : ℕ) → Live (f k) (v k))
    → Live q (v id)
    → (k : ℕ) → Live (update f id q k) (v k)
Live-keep f v id q live new k = elim (ℕ_discrete k id) [
  | yes e ↦ subst (λ j. Live (update f id q j) (v j)) (sym e) (ground (arith, new))
  | no ne ↦ ground (arith, ne, live k)
]

pub fresh-update :
    (f : ℕ → Option PrivateData) (next id : ℕ) (q : Option PrivateData)
    → ((k : ℕ) → next ≤ k → f k ≡ none)
    → id < next
    → (k : ℕ) → next ≤ k
    → update f id q k ≡ none
fresh-update f next id q fresh lt k le = ground (arith, fresh k le)
