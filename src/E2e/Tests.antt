-- ===== src/E2e/Tests.antt =====
-- Runs on the tables of lab2, and the theorems at concrete tables.
use cse522s.Base.{
  ℕ, suc, ◌+◌, ◌*◌, ◌≤◌, ◌<◌, ◌≡◌, refl, true, false, List, [], ◌∷◌, leb, map, arith, All, drop,
  get_or, is_neg, if◌then◌else◌,
}
use cse522s.E2e.{task, subtask, comp_util, comp_rel_ddl}
use cse522s.E2e.Compare.{comp_util_trans, comp_rel_ddl_trans}
use cse522s.E2e.Tables.{template, sched}
use cse522s.E2e.Cumulate.{scan, scan_from, scan_one, cumulate_from, cumulate_one}
use cse522s.E2e.Cumulate.Sums.{sum_exe, cumulate_from-sums}
use cse522s.E2e.Assign.{core_load, assign, assign_one, put, first_fit, load, start}
use cse522s.E2e.Assign.Load.{core_load-le}
use cse522s.E2e.Priority.{prioritize, prioritize_one, starts_core, next_priority, fill_starts}
use cse522s.E2e.Priority.Order.{IsRanked}
use cse522s.E2e.Priority.Starts.{walk_core, filter_core, thread_walk}
use cse522s.E2e.Calibrate.{bisect, rounds, max_count, calibrate_from}
use cse522s.E2e.Calibrate.Search.{Threshold, bisect_total, bisect-least}
use cse522s.E2e.Calibrate.Walk.{IsCounted, calibrate_from-counts}
use cse522s.E2e.Run.{Round, run_once, run_events, successor, ms_to_ktime}
use cse522s.E2e.Run.Guard.{grants, guard_time, run_events-grants, run_events-last, run_once_self}
use cse522s.E2e.Init.{indices, prepare}
use cse522s.E2e.Init.Prepared.{IsWorkload, prepare-IsRanked, prepare-walk}
use cse522s.E2e.Insertion.{insertion_sort, insertion_sort-IsSort}

program : Unit {0}
unfolding template sched indices prepare insertion_sort comp_util comp_rel_ddl scan scan_from
    scan_one cumulate_from cumulate_one assign assign_one put first_fit load prioritize
    prioritize_one starts_core next_priority fill_starts bisect
program = tt

template_cores :
    map (λ s. s.core) (prepare insertion_sort template).table.subtasks ≡ 1 ∷ 0 ∷ 0 ∷ 0 ∷ 1 ∷ 1 ∷ []
unfolding program
template_cores = refl

workload : IsWorkload template
unfolding program
workload = omega arith

prepare-IsRanked_example :
    IsRanked (prepare insertion_sort template).table (prepare insertion_sort template).sub_ptr
prepare-IsRanked_example = prepare-IsRanked insertion_sort insertion_sort-IsSort template workload

prepare-walk_example :
    thread_walk (prepare insertion_sort template).table (
      drop
        (get_or (prepare insertion_sort template).start_addr 1 0)
        (prepare insertion_sort template).sub_ptr)
    ≡ filter_core
        (prepare insertion_sort template).table
        1
        (prepare insertion_sort template).sub_ptr
prepare-walk_example =
    prepare-walk insertion_sort insertion_sort-IsSort template workload 1 (omega arith)

comp_util_trans_template : is_neg (comp_util template 3 1) ≡ false
unfolding program
comp_util_trans_template =
    comp_util_trans template 1 2 3 (omega arith) (omega arith) (omega arith) refl refl

comp_rel_ddl_trans_sched : is_neg (comp_rel_ddl sched 5 6) ≡ false
unfolding program
comp_rel_ddl_trans_sched =
    comp_rel_ddl_trans sched 6 0 5 (omega arith) (omega arith) (omega arith) refl refl

cumulate_from-sums_example :
    ((k : ℕ)
      → k < 3
      → (subtask (cumulate_from 3 0 0 template) (0 + k)).cumulative_exe_time
        ≡ sum_exe template 0 (suc k))
    × (0 < 3 → (task (cumulate_from 3 0 0 template) 0).exe_time ≡ sum_exe template 0 3)
unfolding program sum_exe
cumulate_from-sums_example =
    cumulate_from-sums template 0 (omega arith) (omega arith) (omega arith) (omega arith)

-- `template` with the load of `E2E_init`'s first-fit loop.
abbrev order : List ℕ
order = 1 ∷ 2 ∷ 3 ∷ 4 ∷ 5 ∷ 0 ∷ []

core_load-le_example :
    (core_load (assign 6000 order (start template)).table 6000 0 order ≤ 6000)
    × (get_or (assign 6000 order (start template)).agg_time 0 0
        ≡ core_load (assign 6000 order (start template)).table 6000 0 order)
unfolding program
core_load-le_example =
    core_load-le template 6000 0 order (omega arith) (omega arith) (omega arith) (omega arith) refl

bisect_total_example : Threshold (leb 1000) (bisect (leb 1000) rounds 0 max_count)
bisect_total_example = bisect_total (leb 1000)

bisect-least_example : leb 1000 999 ≡ false
unfolding program
bisect-least_example =
    bisect-least (leb 1000) (λ a b le h. ground arith) 1000 999 refl (omega arith)

calibrate_from-counts_example :
    All
      (IsCounted 32
        (λ p n. n * 50)
        sched
        (calibrate_from 32 (λ p n. n * 50) 0 (6 ∷ 5 ∷ 0 ∷ []) sched).table)
      (walk_core sched 0 (6 ∷ 5 ∷ 0 ∷ []))
unfolding program
calibrate_from-counts_example =
    calibrate_from-counts 32 (λ p n. n * 50) 0 (6 ∷ 5 ∷ 0 ∷ []) sched (omega arith) (omega arith)

abbrev round : Round
round = record { released = 5_000_000; finished = 300_000_000; checked = 300_000_100 }

run_events-grants_example :
    grants 300_000_100 (successor sched (subtask sched 3)) (run_events sched 3 round)
    ≡ guard_time 300_000_100
        (subtask sched (successor sched (subtask sched 3))).last_release_time
        (ms_to_ktime 1000)
      ∷ []
unfolding program successor
run_events-grants_example =
    run_events-grants sched 3 round (omega arith) (omega arith) (omega arith)

run_events-last_at_end : grants 300_000_100 0 (run_events sched 5 round) ≡ []
unfolding program
run_events-last_at_end = run_events-last sched 5 0 round (omega arith) (omega arith) (omega arith)

run_once_self_at_start :
    grants 300_000_100 3 (run_once sched 3 round).events
    ≡ (if true then (5_000_000 + ms_to_ktime 1000) ∷ [] else [])
unfolding program successor
run_once_self_at_start = run_once_self sched 3 round (omega arith) (omega arith)
