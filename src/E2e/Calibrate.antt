-- ===== src/E2e/Calibrate.antt =====
-- lab2/E2E.c, `calibrate`: one thread per core looks for the loop count of each of its subtasks.
pub mod Search
pub mod Walk
use cse522s.Base.{
  ℕ, zero, suc, ◌+◌, ◌*◌, ◌/◌, ◌%◌, ◌^◌, Bool, List, [], ◌∷◌, Option, none, some, ltb, leb, ◌==◌,
  if◌then◌else◌, u32,
}
use cse522s.E2e.{core_num, Table, Subtask, subtask, set_subtask}

-- `1e8`
abbrev pub max_count : ℕ
max_count = 100_000_000

-- 2 ^ 27 is above `max_count`: the range is empty after 27 halvings.
abbrev pub rounds : ℕ
rounds = 27

-- The inner `while`. `slow mid` says that the run with `mid` iterations took at least the execution
-- time; no `mid` is run twice. The result is `max_cnt`, `none` if the fuel ran out.
unfoldable pub bisect : (slow : ℕ → Bool) → ℕ → (min_cnt max_cnt : ℕ) → Option ℕ
bisect slow zero min_cnt max_cnt = if ltb min_cnt max_cnt then none else some max_cnt
bisect slow (suc fuel) min_cnt max_cnt =
    let mid = u32 (min_cnt + max_cnt) / 2 in
    let rest =
      bisect slow fuel (if slow mid then min_cnt else u32 (mid + 1))
        (if slow mid then mid else max_cnt) in
    if ltb min_cnt max_cnt then rest else some max_cnt

-- `end_t - start_t >= exe_time * NSEC_PER_MSEC`. The product is in `unsigned long`, whose width is
-- the platform's.
pub is_slow : (long_bits : ℕ) → (elapsed : ℕ) → (exe_time : ℕ) → Bool
is_slow long_bits elapsed exe_time = leb (exe_time * 1_000_000 % 2 ^ long_bits) elapsed

-- The calls that the thread makes: the scheduler is told the priority, then the result is logged.
pub data Event : Type 0 where
  set_fifo : (priority : ℕ) → Event
  report : (task_id subtask_id loop_count core priority : ℕ) → Event

pub record Visit : Type 0 where
  pub table : Table
  pub events : List Event

-- `(*cur)->core`, where `cur` points at the head of what is left of `sub_ptr`. Behind the last
-- pointer stands the sentinel, whose core is `CORE_NUM`.
unfoldable pub core_at : Table → List ℕ → ℕ
core_at t [] = core_num
core_at t (p ∷ ptrs) = (subtask t p).core

module _ (long_bits : ℕ) (elapsed : ℕ → ℕ → ℕ) where
  -- What the search finds for subtask `p`, where `elapsed p n` is the measured time of `n`
  -- iterations.
  pub calibrated : Subtask → ℕ → Option ℕ
  calibrated s p = bisect (λ mid. is_slow long_bits (elapsed p mid) s.exe_time) rounds 0 max_count

  unfoldable pub store_count : Table → ℕ → Option ℕ → Table
  store_count t p none = t
  store_count t p (some n) = set_subtask t p (record (subtask t p) { loop_count = n })

  -- The outer `while`, from `cur` on.
  unfoldable pub calibrate_from : ℕ → List ℕ → Table → Visit
  calibrate_from core [] t = record { table = t; events = [] }
  calibrate_from core (p ∷ ptrs) t =
      let s = subtask t p in
      let t' = store_count t p (calibrated s p) in
      let s' = subtask t' p in
      let rest = calibrate_from core ptrs t' in
      if core_at t (p ∷ ptrs) == core
      then record {
        table = rest.table;
        events =
            set_fifo s.priority
            ∷ report s'.task_id s'.subtask_id s'.loop_count s'.core s'.priority
            ∷ rest.events;
      }
      else record { table = t; events = [] }

  -- `calibrate(data)`, from its start pointer on.
  unfoldable pub calibrate : List ℕ → Table → Visit
  calibrate ptrs t =
      let core = core_at t ptrs in
      if core == core_num then record { table = t; events = [] } else calibrate_from core ptrs t
