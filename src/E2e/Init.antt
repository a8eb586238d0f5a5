-- ===== src/E2e/Init.antt =====
-- lab2/E2E.c, `E2E_init`, `cal_timer_func` and `E2E_exit`: the phases put together, and the calls to
-- the kernel. The kernel's `sort` is a parameter.
pub mod Sorting
pub mod Prepared
use cse522s.Base.{
  ℕ, zero, suc, ◌+◌, Bool, true, false, List, [], ◌∷◌, ◌++◌, ℤ, none, get_or, length, if◌then◌else◌,
}
use cse522s.E2e.{core_num, Table, task, subtask, set_subtask, comp_util, comp_rel_ddl}
use cse522s.E2e.Cumulate.{scan}
use cse522s.E2e.Assign
use cse522s.E2e.Priority

pub data Thread : Type 0 where
  cal : (core : ℕ) → Thread
  sub : (i : ℕ) → Thread

pub data Call : Type 0 where
  create_cal : (core start_addr : ℕ) → Call  -- start_addr is a position in sub_ptr
  create_run : (i : ℕ) → Call
  bind : Thread → (core : ℕ) → Call
  set_fifo : Thread → (priority : ℕ) → Call
  wake : Thread → Call
  start_cal_timer : (nanoseconds : ℕ) → Call
  print_unschedulable : Call
  stop : Thread → Call
  cancel_timer : (i : ℕ) → Call
  cancel_cal_timer : Call
  free_sentinel : Call
  free_sub_ptr : Call

-- The indices from `i` on, `n` of them.
unfoldable pub indices : ℕ → ℕ → List ℕ
indices zero i = []
indices (suc n) i = i ∷ indices n (suc i)

-- What "calibrate" mode leaves in the module's variables.
pub record Ready : Type 0 where
  pub table : Table
  pub sub_ptr : List ℕ
  pub start_addr : List ℕ
  pub invalid : Bool

module _ (sort : (ℕ → ℕ → ℤ) → List ℕ → List ℕ) where
  -- `E2E_init` up to the creation of the threads.
  unfoldable pub prepare : Table → Ready
  prepare t =
      let scanned = scan (length t.tasks) t in
      let h = scanned.hyper_period in
      let by_util = sort (comp_util scanned.table) (indices (length t.subtasks) 0) in
      let placed = Assign.assign h by_util (Assign.start scanned.table) in
      let sub_ptr = sort (comp_rel_ddl placed.table) by_util in
      let ranked =
        Priority.prioritize 0 none sub_ptr
          (record { table = placed.table; start_addr = Priority.no_starts }) in
      record {
        table = ranked.table;
        sub_ptr = sub_ptr;
        start_addr = Priority.fill_starts (length sub_ptr) ranked.start_addr;
        invalid = placed.invalid;
      }

  -- The threads of "calibrate" mode.
  pub calibrate_calls : List ℕ → List ℕ → List Call
  calibrate_calls start_addr [] = []
  calibrate_calls start_addr (i ∷ cores) =
      create_cal i (get_or start_addr i 0)
      ∷ bind (cal i) i
      ∷ set_fifo (cal i) 20
      ∷ wake (cal i)
      ∷ calibrate_calls start_addr cores

  pub init_calibrate : Table → Ready × List Call
  init_calibrate t =
      let ready = prepare t in
      (
        ready,
        calibrate_calls ready.start_addr (indices core_num 0)
            ++ (start_cal_timer 100_000_000
                ∷ (if ready.invalid then print_unschedulable ∷ [] else [])),
      )

-- "run" mode: one thread per subtask, none of them released yet.
unfoldable pub clear_releases : List ℕ → Table → Table
clear_releases [] t = t
clear_releases (i ∷ is) t =
    clear_releases is (set_subtask t i (record (subtask t i) { last_release_time = 0 }))

pub run_calls : Table → List ℕ → List Call
run_calls t [] = []
run_calls t (i ∷ is) =
    create_run i
    ∷ bind (sub i) (subtask t i).core
    ∷ set_fifo (sub i) (subtask t i).priority
    ∷ wake (sub i)
    ∷ run_calls t is

unfoldable pub init_run : Table → Table × List Call
init_run t =
    let is = indices (length t.subtasks) 0 in
    (clear_releases is t, run_calls t is ++ start_cal_timer 100_000_000 ∷ [])

-- `cal_timer_func`: the first subtask of each task, or the calibration threads.
unfoldable pub wake_tasks : Table → List ℕ → List Call
wake_tasks t [] = []
wake_tasks t (i ∷ is) = wake (sub (task t i).subtask_start_idx) ∷ wake_tasks t is

pub wake_cores : List ℕ → List Call
wake_cores [] = []
wake_cores (i ∷ is) = wake (cal i) ∷ wake_cores is

unfoldable pub cal_timer_func : (calibrating : Bool) → Table → List Call
cal_timer_func calibrating t =
    if calibrating
    then wake_cores (indices core_num 0)
    else wake_tasks t (indices (length t.tasks) 0)

-- `E2E_exit`, but for what it prints.
pub stop_calls : List ℕ → List Call
stop_calls [] = []
stop_calls (i ∷ is) = stop (sub i) ∷ cancel_timer i ∷ stop_calls is

pub exit_calls : (calibrating : Bool) → Table → List Call
exit_calls calibrating t =
    (if calibrating
      then free_sentinel ∷ free_sub_ptr ∷ []
      else stop_calls (indices (length t.subtasks) 0))
    ++ cancel_cal_timer ∷ []
