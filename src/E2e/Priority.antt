-- ===== src/E2e/Priority.antt =====
-- lab2/E2E.c, `E2E_init` after the second `sort`: priorities, and where each core's subtasks start
-- in `sub_ptr`. A pointer into `sub_ptr` is a position.
pub mod Chain
pub mod Order
pub mod Starts
use cse522s.Base.{
  ℕ, suc, ◌+◌, ◌-◌, ◌^◌, Bool, true, not, List, [], ◌∷◌, Option, none, some, ◌==◌, if◌then◌else◌,
  get_or, set, length, u32,
}
use cse522s.E2e.{Table, Subtask, subtask, set_subtask}

pub record State : Type 0 where
  pub table : Table
  pub start_addr : List (Option ℕ)  -- `none` is NULL

-- `i == 0 || sub_ptr[i]->core != sub_ptr[i - 1]->core`, where `prev` is `sub_ptr[i - 1]`
unfoldable pub starts_core : Table → Option ℕ → ℕ → Bool
starts_core t none p = true
starts_core t (some q) p = not ((subtask t p).core == (subtask t q).core)

-- `sub_ptr[i - 1]->priority - 1`, in `uint32_t`
unfoldable pub next_priority : Table → Option ℕ → ℕ
next_priority t none = 0
next_priority t (some q) = u32 ((subtask t q).priority + (2 ^ 32 - 1))

-- Round `i`, for the pointer `p`.
unfoldable pub prioritize_one : ℕ → Option ℕ → ℕ → State → State
prioritize_one i prev p st =
    let s = subtask st.table p in
    if starts_core st.table prev p
    then record {
      table = set_subtask st.table p (record s { priority = 50 });
      start_addr = set st.start_addr s.core (some i);
    }
    else record st {
      table = set_subtask st.table p (record s { priority = next_priority st.table prev });
    }

-- The loop from position `i` on.
unfoldable pub prioritize : ℕ → Option ℕ → List ℕ → State → State
prioritize i prev [] st = st
prioritize i prev (p ∷ sub_ptr) st =
    prioritize (suc i) (some p) sub_ptr (prioritize_one i prev p st)

-- The last loop: a core with no subtask starts at the sentinel behind the others.
unfoldable pub fill_starts : ℕ → List (Option ℕ) → List ℕ
fill_starts subtask_tot [] = []
fill_starts subtask_tot (none ∷ starts) = subtask_tot ∷ fill_starts subtask_tot starts
fill_starts subtask_tot (some k ∷ starts) = k ∷ fill_starts subtask_tot starts

-- `start_addr[CORE_NUM] = {NULL}`
abbrev pub no_starts : List (Option ℕ)
no_starts = none ∷ none ∷ none ∷ []
