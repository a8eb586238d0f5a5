-- ===== src/E2e/Cumulate.antt =====
-- lab2/E2E.c, the first loop of `E2E_init` in "calibrate" mode: cumulative execution times, the
-- tasks' execution times and the hyper-period.
pub mod Sums
pub mod Lengths
use cse522s.Base.{ℕ, zero, suc, ◌+◌, ◌-◌, ◌≡◌, List, ltb, ◌==◌, if◌then◌else◌, get_or, set, u32}
use cse522s.E2e.{Task, Table, task, subtask, set_subtask}

-- Round `j` of the inner loop, for task `i`.
unfoldable pub cumulate_one : ℕ → ℕ → Table → Table
cumulate_one i j t =
    let cur_idx = u32 ((task t i).subtask_start_idx + j) in
    let s = subtask t cur_idx in
    let before = if j == 0 then 0 else (subtask t (cur_idx - 1)).cumulative_exe_time in
    let total = u32 (before + s.exe_time) in
    let t' = set_subtask t cur_idx (record s { cumulative_exe_time = total }) in
    if j == (task t i).subtask_count - 1
    then record t' { tasks = set t.tasks i (record (task t i) { exe_time = total }) }
    else t'

-- The rounds from `j` on, `n` of them.
unfoldable pub cumulate_from : ℕ → ℕ → ℕ → Table → Table
cumulate_from zero i j t = t
cumulate_from (suc n) i j t = cumulate_from n i (j + 1) (cumulate_one i j t)

pub record Scan : Type 0 where
  pub table : Table
  pub hyper_period : ℕ

-- Round `i` of the outer loop.
unfoldable pub scan_one : ℕ → Scan → Scan
scan_one i s =
    let p = (task s.table i).period in
    record {
      table = cumulate_from (task s.table i).subtask_count i 0 s.table;
      hyper_period = if ltb s.hyper_period p then p else s.hyper_period;
    }

-- The tasks from `i` on, `n` of them.
unfoldable pub scan_from : ℕ → ℕ → Scan → Scan
scan_from zero i s = s
scan_from (suc n) i s = scan_from n (i + 1) (scan_one i s)

unfoldable pub scan : ℕ → Table → Scan
scan task_tot t = scan_from task_tot 0 (record { table = t; hyper_period = 0 })
