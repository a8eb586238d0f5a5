-- ===== src/Paging/Safety.antt =====
-- On-demand mode from the loading of the module on: what the handlers access, and where the pages are.
use mathlib.Core.Path.{subst}
use cse522s.Base.{
  ℕ, zero, suc, ◌+◌, ◌-◌, ◌==◌, if◌then◌else◌, List, [], ◌∷◌, length, ◌^◌, ◌<◌, ◌≡◌, ◌≢◌, refl, inl,
  inr, true, Option, none, some, arith, u32, ℤ, Bool-cases, Option-cases,
}
use cse522s.Paging.{
  PrivateData, State, oops, Vma, is_minus_one, list_del_writes, do_fault, paging_vma_open,
  paging_vma_close,
}
use cse522s.Paging.Counts.{total, size, System, Step, Reaches, loaded, Live, Inv}
use cse522s.Paging.Accounts.{
  Ok, Ok-some, free_cells_stale, present, fault-Inv, open-Inv, close-Inv, mmap-Inv,
}

step-Inv : (s t : System) → Step s t → Inv s.state s.vmas s.lost → Inv t.state t.vmas t.lost
step-Inv s _ (Step.mapped vma pages remap e) inv =
    subst (Ok (λ r. Inv r.1 _ s.lost)) e (mmap-Inv s.state s.vmas s.lost inv vma pages remap)
step-Inv s _ (Step.faulted id page remap used) inv =
    fault-Inv s.state s.vmas s.lost inv id page remap used
step-Inv s _ (Step.opened id used small e) inv =
    subst (Ok (λ t. Inv t _ s.lost)) e (open-Inv s.state s.vmas s.lost inv id used small)
step-Inv s _ (Step.closed vma id used e) inv =
    subst (Ok (λ t. Inv t _ s.lost)) e (close-Inv s.state s.vmas s.lost inv vma id used)

loaded-Inv : Inv loaded.state loaded.vmas loaded.lost
loaded-Inv = record { live = λ id. refl; fresh = λ id le. refl; count = refl; pages = refl }

reaches-Inv : (s : System) → Reaches loaded s → Inv s.state s.vmas s.lost
reaches-Inv _ Reaches.here = loaded-Inv
reaches-Inv s (Reaches.after {t = t} p e) = step-Inv t s e (reaches-Inv t p)

fault-ok :
    (s : State) (id : ℕ) (page : Option ℕ) (remap : ℤ)
    → s.private_data id ≢ none
    → (do_fault id page remap true s).0 ≢ oops
unfolding do_fault
fault-ok s id none remap there = λ e. absurd (ground (arith, e))
fault-ok s id (some page) remap there = elim (Option-cases (s.private_data id)) [
  | inl gone ↦ absurd (there gone)
  | inr (p, found) ↦ rw found (elim (Bool-cases (is_minus_one remap)) [
    | inl refused ↦ rw refused (λ e. absurd (ground (arith, e)))
    | inr fine ↦ rw fine (λ e. absurd (ground (arith, e)))
  ])
]

list_del_writes-length : (l : List ℕ) → list_del_writes l ≡ (if length l == 0 then 0 else 2)
list_del_writes-length [] = refl
list_del_writes-length (page ∷ l) = ground arith

-- What a call adds to the accesses to freed cells.
abbrev pub Adds : (reads writes : ℕ) → State → State → Type 0
Adds reads writes s t =
    (t.stale_reads ≡ s.stale_reads + reads) × (t.stale_writes ≡ s.stale_writes + writes)

open-Adds : (s : State) (id : ℕ) → s.private_data id ≢ none → Ok (Adds 0 0 s) (paging_vma_open id s)
unfolding paging_vma_open
open-Adds s id there = elim (Option-cases (s.private_data id)) [
  | inl gone ↦ absurd (there gone)
  | inr (p, found) ↦ rw (Ok, found) (omega arith, omega arith)
]

fault-Adds :
    (s : State) (id : ℕ) (page : Option ℕ) (remap : ℤ)
    → Adds 0 0 s (do_fault id page remap true s).1
unfolding do_fault
fault-Adds s id none remap = (omega arith, omega arith)
fault-Adds s id (some page) remap = elim (Bool-cases (is_minus_one remap)) [
  | inl refused ↦ rw refused (omega arith, omega arith)
  | inr fine ↦ elim (Option-cases (s.private_data id)) [
    | inl gone ↦ rw (fine, gone) (omega arith, omega arith)
    | inr (p, found) ↦ rw (fine, found) (omega arith, omega arith)
  ]
]

-- The last `close` reads each cell of the list after it was freed, and writes to two of them.
abbrev pub close_reads : (vmas pages : ℕ) → ℕ
close_reads vmas pages = if vmas == 1 then pages else 0

abbrev pub close_writes : (vmas pages : ℕ) → ℕ
close_writes vmas pages = if vmas == 1 then (if pages == 0 then 0 else 2) else 0

close-Adds :
    (s : State) (vma : Vma) (id n : ℕ)
    → Live (s.private_data id) n
    → 0 < n
    → Ok
        (Adds
          (close_reads n (size (s.private_data id)))
          (close_writes n (size (s.private_data id)))
          s)
        (paging_vma_close true vma id s)
unfolding paging_vma_close cse522s.Paging.release
close-Adds s vma id n live used = elim (Option-cases (s.private_data id)) [
  | inl gone ↦ absurd (omega (arith, subst (λ o. Live o n) gone live, used))
  | inr (p, found) ↦
      let was = subst (λ o. Live o n) found live in
      let (reads, writes) = free_cells_stale p.pagelist s in
      rw (Ok, found)
        (elim (Bool-cases (u32 (p.reference + (2 ^ 32 - 1)) == 0)) [
          | inl last ↦
              rw last
                (ground (arith, was, used, last, reads, writes, list_del_writes-length p.pagelist))
          | inr shared ↦ rw shared (ground (arith, was, used, shared))
        ])
]

-- After any sequence of calls in on-demand mode since the module was loaded, the handlers running one
-- at a time, a call for a VMA that is still there finds its private data: `open` (of fewer than 2 ^ 32
-- VMAs), `close` and, where `kmalloc` returns memory, the fault handler. Of freed cells, `open` and the
-- fault handler access none, and `close` none but for the last VMA; then it reads one for each page of
-- the list, and if there is any, writes to two.
pub handlers-safe :
    (s : System) (id : ℕ)
    → Reaches loaded s
    → 0 < s.vmas id
    → s.vmas id + 1 < 2 ^ 32
    → (paging_vma_open id s.state ≢ none)
      × Ok (Adds 0 0 s.state) (paging_vma_open id s.state)
      × ((vma : Vma)
          → Ok
              (Adds
                (close_reads (s.vmas id) (size (s.state.private_data id)))
                (close_writes (s.vmas id) (size (s.state.private_data id)))
                s.state)
              (paging_vma_close true vma id s.state))
      × ((page : Option ℕ) (remap : ℤ)
          → ((do_fault id page remap true s.state).0 ≢ oops)
            × Adds 0 0 s.state (do_fault id page remap true s.state).1)
handlers-safe s id p used small =
    let inv = reaches-Inv s p in
    let there = present s.state s.vmas s.lost inv id used in
    (
      Ok-some _ _ (open-Inv s.state s.vmas s.lost inv id used small),
      open-Adds s.state id there,
      λ vma. close-Adds s.state vma id (s.vmas id) (inv.live id) used,
      λ page remap. (fault-ok s.state id page remap there, fault-Adds s.state id page remap),
    )

-- After any sequence of calls in on-demand mode, the handlers running one at a time and freed cells
-- keeping what they hold, the counters differ by the pages on the lists, modulo 2 ^ 32, and the pages
-- not given back are those on the lists and those whose `remap_pfn_range` returned -1.
pub counters-account :
    (s : System)
    → Reaches loaded s
    → (s.state.alloc_number ≡ u32 (s.state.free_number + total s.state.next s.state.private_data))
      × (s.state.held ≡ total s.state.next s.state.private_data + s.lost)
counters-account s p = let inv = reaches-Inv s p in (inv.count, inv.pages)

total-none : (n : ℕ) (f : ℕ → Option PrivateData) → ((id : ℕ) → f id ≡ none) → total n f ≡ 0
total-none zero f h = refl
total-none (suc n) f h = ground (arith, h n, total-none n f h)

gone : (o : Option PrivateData) (n : ℕ) → Live o n → n ≡ 0 → o ≡ none
gone none n h e = refl
gone (some p) n h e = absurd (omega (arith, h.1.0, e))

-- When every VMA is closed, the counters that the exit prints are equal, modulo 2 ^ 32, and the module
-- holds no page but those whose `remap_pfn_range` returned -1.
pub all_closed-accounts :
    (s : System)
    → Reaches loaded s
    → ((id : ℕ) → s.vmas id ≡ 0)
    → (s.state.alloc_number ≡ u32 s.state.free_number) × (s.state.held ≡ s.lost)
all_closed-accounts s p closed =
    let inv = reaches-Inv s p in
    let nothing : total s.state.next s.state.private_data ≡ 0 =
      total-none s.state.next s.state.private_data
        (λ id. gone (s.state.private_data id) (s.vmas id) (inv.live id) (closed id)) in
    omega (arith, inv.count, inv.pages, nothing)
