-- ===== src/Waiting.antt =====
-- Modules whose thread does little but wait to be stopped: final_project/file_sync_module.c,
-- final_project/module_template.c and studio6/vfs_module.c (its thread in Waiting.Vfs). `my_get_order` of
-- the template is the function of KernelMemory.
pub mod Vfs
mod Tests
use cse522s.Base.{ℕ, zero, suc, Option, none, some, List, [], ◌∷◌, ◌++◌, ℤ, pos}

pub data Call : Type 0 where
  create : Call
  wake : Call
  schedule : Call
  stop : Call

-- `file_sync_module_init`, and `kernel_memory_init` of the two others, with the error of `kthread_create`
abbrev pub module_init : (error : Option ℤ) → ℤ × List Call
module_init (some err) = (err, create ∷ [])
module_init none = (pos 0, create ∷ wake ∷ [])

-- The thread's loop: `schedule` until it should stop, after so many rounds.
unfoldable pub wait_loop : (rounds : ℕ) → List Call
wait_loop zero = []
wait_loop (suc rounds) = schedule ∷ wait_loop rounds

abbrev pub module_exit : List Call
module_exit = stop ∷ []
