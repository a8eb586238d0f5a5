-- ===== src/E2e/Assign.antt =====
-- lab2/E2E.c, `E2E_init` from `sort(…, &comp_util, …)` to the next `sort`: first-fit assignment of
-- subtasks to cores. `agg_time` is a list of `CORE_NUM` numbers.
pub mod Sums
pub mod Bounds
pub mod Load
use cse522s.Base.{
  ℕ, suc, ◌+◌, ◌*◌, ◌/◌, Bool, true, false, List, [], ◌∷◌, leb, ◌==◌, if◌then◌else◌, get_or, set,
  u32,
}
use cse522s.E2e.{core_num, Table, Subtask, subtask, set_subtask, parent}

-- `sub_ptr[i]->exe_time * hyper_period / parent->period`, in `uint32_t`
unfoldable pub load : Table → ℕ → Subtask → ℕ
load t hyper_period s = u32 (s.exe_time * hyper_period) / (parent t s).period

-- The inner loop over `j`: the first core that the load fits on, `CORE_NUM` if there is none.
unfoldable pub first_fit : ℕ → ℕ → List ℕ → ℕ
first_fit hyper_period w [] = 0
first_fit hyper_period w (a ∷ agg) =
    if leb (u32 (a + w)) hyper_period then 0 else suc (first_fit hyper_period w agg)

pub record State : Type 0 where
  pub table : Table
  pub agg_time : List ℕ
  pub invalid : Bool

-- Where subtask `i` goes: on core `j`, or, if no core has room, on core 0, which then counts as full.
unfoldable pub put : ℕ → ℕ → ℕ → State → State
put hyper_period i j st =
    let s = subtask st.table i in
    if j == core_num
    then record {
      table = set_subtask st.table i (record s { core = 0 });
      agg_time = set st.agg_time 0 hyper_period;
      invalid = true;
    }
    else record st {
      table = set_subtask st.table i (record s { core = j });
      agg_time = set st.agg_time j (u32 (get_or st.agg_time j 0 + load st.table hyper_period s));
    }

-- One round of the outer loop, for the pointer `sub_ptr[i]`.
unfoldable pub assign_one : ℕ → ℕ → State → State
assign_one hyper_period i st =
    let s = subtask st.table i in
    put hyper_period i (first_fit hyper_period (load st.table hyper_period s) st.agg_time) st

unfoldable pub assign : ℕ → List ℕ → State → State
assign hyper_period [] st = st
assign hyper_period (i ∷ sub_ptr) st = assign hyper_period sub_ptr (assign_one hyper_period i st)

-- `agg_time[CORE_NUM] = {0}` and `invalid = 0`
abbrev pub start : Table → State
start t = record { table = t; agg_time = 0 ∷ 0 ∷ 0 ∷ []; invalid = false }

-- The load that the listed subtasks put on core `j`.
pub core_load : Table → ℕ → ℕ → List ℕ → ℕ
core_load t hyper_period j [] = 0
core_load t hyper_period j (i ∷ ptrs) =
    (if (subtask t i).core == j then load t hyper_period (subtask t i) else 0)
    + core_load t hyper_period j ptrs
