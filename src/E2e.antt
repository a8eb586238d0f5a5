-- ===== src/E2e.antt =====
-- lab2/E2E.c: the task tables and the comparators of the end-to-end scheduler. A pointer into
-- `subtasks` is its index; the children model the phases of the module.
pub mod Compare
pub mod Cumulate
pub mod Assign
pub mod Priority
pub mod Calibrate
pub mod Run
pub mod Init
pub mod Tables
pub mod Threads
mod Insertion
mod Tests
use cse522s.Base.{
  ℕ, ◌+◌, ◌*◌, ◌%◌, ◌^◌, Bool, List, ltb, if◌then◌else◌, get_or, set, ℤ, pos, negsuc,
}

-- `CORE_NUM`
abbrev pub core_num : ℕ
core_num = 3

pub record Task : Type 0 where
  pub period : ℕ  -- uint32_t, in milliseconds
  pub subtask_count : ℕ
  pub subtask_start_idx : ℕ
  pub exe_time : ℕ

-- `timer` and `thread` belong to the kernel: events name them by the subtask's index.
pub record Subtask : Type 0 where
  pub task_id : ℕ
  pub subtask_id : ℕ
  pub exe_time : ℕ
  pub last_release_time : ℕ  -- ktime_t, in nanoseconds
  pub loop_count : ℕ
  pub cumulative_exe_time : ℕ
  pub core : ℕ
  pub priority : ℕ

-- The two global arrays.
pub record Table : Type 0 where
  pub tasks : List Task
  pub subtasks : List Subtask

-- What a read past the arrays gives here. In C it is undefined: statements keep indices in range.
abbrev pub no_task : Task
no_task = record { period = 0; subtask_count = 0; subtask_start_idx = 0; exe_time = 0 }

abbrev pub no_subtask : Subtask
no_subtask = record {
  task_id = 0;
  subtask_id = 0;
  exe_time = 0;
  last_release_time = 0;
  loop_count = 0;
  cumulative_exe_time = 0;
  core = 0;
  priority = 0;
}

abbrev pub task : Table → ℕ → Task
task t i = get_or t.tasks i no_task

abbrev pub subtask : Table → ℕ → Subtask
subtask t i = get_or t.subtasks i no_subtask

abbrev pub set_subtask : Table → ℕ → Subtask → Table
set_subtask t i s = record t { subtasks = set t.subtasks i s }

-- The task that a subtask belongs to, `&tasks[s->task_id]`.
abbrev pub parent : Table → Subtask → Task
parent t s = task t s.task_id

-- `<` on `long long`, of two bit patterns that wrap at 64 bits: the order with the sign bit flipped.
abbrev pub lt64 : ℕ → ℕ → Bool
lt64 a b = ltb ((a + 2 ^ 63) % 2 ^ 64) ((b + 2 ^ 63) % 2 ^ 64)

-- The products that the two comparators compare.
abbrev pub util_key : Table → Subtask → Subtask → ℕ
util_key t l r = l.exe_time * (parent t r).period

abbrev pub deadline_key : Table → Subtask → Subtask → ℕ
deadline_key t l r = (parent t l).period * l.cumulative_exe_time * (parent t r).exe_time

-- Larger utilisation first.
unfoldable pub comp_util : Table → ℕ → ℕ → ℤ
comp_util t lhs rhs =
    let l = subtask t lhs in
    let r = subtask t rhs in
    if lt64 (util_key t r l) (util_key t l r)
    then negsuc 0
    else if lt64 (util_key t l r) (util_key t r l)
    then pos 1
    else pos 0

-- By core, and on one core by relative deadline.
unfoldable pub comp_rel_ddl : Table → ℕ → ℕ → ℤ
comp_rel_ddl t lhs rhs =
    let l = subtask t lhs in
    let r = subtask t rhs in
    if ltb l.core r.core
    then negsuc 0
    else if ltb r.core l.core
    then pos 1
    else if lt64 (deadline_key t l r) (deadline_key t r l)
    then negsuc 0
    else if lt64 (deadline_key t r l) (deadline_key t l r)
    then pos 1
    else pos 0
