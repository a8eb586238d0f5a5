-- ===== src/Paging/Device.antt =====
-- lab-1/mod/paging.c: the device, registered at loading and removed at unloading, and the operations
-- that the kernel finds in `paging_vma_ops`.
use cse522s.Base.{ℕ, zero, ◌≡◌, ap, Bool, Option, List, [], ◌∷◌, ℤ, pos, u32}
use cse522s.Paging.{State, Fault, do_fault}
use cse522s.Paging.Counts.{System, Reaches, loaded}
use cse522s.Paging.Safety.{all_closed-accounts}

-- `dev_handle` is registered and removed; the counters are printed as their 32-bit patterns.
pub data DeviceCall : Type 0 where
  misc_register : DeviceCall
  misc_deregister : DeviceCall
  print_failed : DeviceCall
  print_loaded : DeviceCall
  print_alloc_number : ℕ → DeviceCall
  print_free_number : ℕ → DeviceCall
  print_unloaded : DeviceCall

-- `status` is what `misc_register` returns.
pub kmod_paging_init : (status : ℤ) → ℤ × List DeviceCall
kmod_paging_init (pos zero) = (pos 0, misc_register ∷ print_loaded ∷ [])
kmod_paging_init status = (status, misc_register ∷ print_failed ∷ [])

pub kmod_paging_exit : State → List DeviceCall
kmod_paging_exit s =
    misc_deregister
    ∷ print_alloc_number s.alloc_number
    ∷ print_free_number s.free_number
    ∷ print_unloaded
    ∷ []

-- `paging_vma_fault`: a fault, with what the calls of `do_fault` return; the address only goes to
-- `remap_pfn_range`.
pub paging_vma_fault : (id : ℕ) (page : Option ℕ) (remap : ℤ) (cell : Bool) → State → Fault × State
paging_vma_fault id page remap cell s = do_fault id page remap cell s

-- When every VMA is closed, the exit prints the number of freed pages twice, modulo 2 ^ 32.
exit-accounts :
    (s : System)
    → Reaches loaded s
    → ((id : ℕ) → s.vmas id ≡ 0)
    → kmod_paging_exit s.state ≡ (
        misc_deregister
        ∷ print_alloc_number (u32 s.state.free_number)
        ∷ print_free_number s.state.free_number
        ∷ print_unloaded
        ∷ [])
unfolding kmod_paging_exit
exit-accounts s r closed =
    ap
      (λ n.
        misc_deregister
        ∷ print_alloc_number n
        ∷ print_free_number s.state.free_number
        ∷ print_unloaded
        ∷ [])
      (all_closed-accounts s r closed).0
