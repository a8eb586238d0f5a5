-- ===== src/Paging/Tests.antt =====
-- A mapping that takes a fault, and is closed.
use cse522s.Base.{
  ℕ, ◌+◌, ◌-◌, ◌*◌, ◌^◌, ◌≤◌, ◌<◌, ◌≡◌, ◌≢◌, refl, true, Option, none, some, arith, u32, ℤ, pos,
}
use cse522s.KernelMemory.{my_get_order}
use cse522s.Paging.{
  State, Fault, oops, Vma, do_fault, paging_vma_open, paging_vma_close, paging_mmap, find_order,
  vma_order,
}
use cse522s.Paging.Order.{find_order-my_get_order, vma_order-covers}
use cse522s.Paging.Accounts.{Ok}
use cse522s.Paging.Counts.{total, System, Step, Reaches, loaded, set_vmas}
use cse522s.Paging.Safety.{Adds, handlers-safe, counters-account, all_closed-accounts}

abbrev area : Vma
area = record { vm_start = 65536; vm_end = 65536 + 20000 }

abbrev state_or : Option State → State
state_or none = loaded.state
state_or (some s) = s

abbrev mapped_state : Option (ℤ × State) → State
mapped_state none = loaded.state
mapped_state (some r) = r.1

abbrev one_mapping : System
one_mapping = record {
  state = mapped_state (paging_mmap true area true (λ order. none) (pos 0) loaded.state);
  vmas = set_vmas (λ id. 0) 0 1;
  lost = 0;
}

abbrev one_page : System
one_page = record one_mapping { state = (do_fault 0 (some 77) (pos 0) true one_mapping.state).1 }

abbrev closed : System
closed = record one_page {
  state = state_or (paging_vma_close true area 0 one_page.state);
  vmas = set_vmas one_mapping.vmas 0 0;
}

reaches_page : Reaches loaded one_page
unfolding paging_mmap do_fault
reaches_page =
    Reaches.after (Reaches.after Reaches.here (Step.mapped area (λ order. none) (pos 0) refl))
      (Step.faulted 0 (some 77) (pos 0) (omega arith))

reaches_closed : Reaches loaded closed
unfolding paging_mmap do_fault paging_vma_close cse522s.Paging.release
reaches_closed = Reaches.after reaches_page (Step.closed area 0 (omega arith) refl)

find_order-my_get_order_example : find_order 31 0 5 ≡ my_get_order 5
find_order-my_get_order_example = find_order-my_get_order 5 (omega arith) (omega arith)

area_covered :
    (order : ℕ) × (vma_order area ≡ some order)
    × (area.vm_end ≤ area.vm_start + 4096 * 2 ^ order)
    × (4096 * 2 ^ order < 2 * (area.vm_end - area.vm_start + 4095))
area_covered = vma_order-covers area (omega arith) (omega arith)

handlers-safe_example :
    (paging_vma_open 0 one_page.state ≢ none)
    × Ok (Adds 0 0 one_page.state) (paging_vma_open 0 one_page.state)
    × ((vma : Vma) → Ok (Adds 1 2 one_page.state) (paging_vma_close true vma 0 one_page.state))
    × ((page : Option ℕ) (remap : ℤ)
        → ((do_fault 0 page remap true one_page.state).0 ≢ oops)
          × Adds 0 0 one_page.state (do_fault 0 page remap true one_page.state).1)
unfolding paging_mmap do_fault
handlers-safe_example = handlers-safe one_page 0 reaches_page (omega arith) (omega arith)

counters-account_example :
    (one_page.state.alloc_number
      ≡ u32 (one_page.state.free_number + total one_page.state.next one_page.state.private_data))
    × (one_page.state.held ≡ total one_page.state.next one_page.state.private_data + one_page.lost)
counters-account_example = counters-account one_page reaches_page

all_closed-accounts_closed :
    (closed.state.alloc_number ≡ u32 closed.state.free_number) × (closed.state.held ≡ closed.lost)
all_closed-accounts_closed = all_closed-accounts closed reaches_closed (λ id. ground arith)
