-- ===== src/E2e/Run.antt =====
-- lab2/E2E.c, `run`: what a subtask's thread does each time it is woken, and its timers.
pub mod Guard
use cse522s.Base.{
  ℕ, suc, ◌+◌, ◌-◌, ◌*◌, ◌/◌, ◌^◌, ◌||◌, List, [], ◌∷◌, ◌++◌, ltb, leb, ◌==◌, if◌then◌else◌, u32,
}
use cse522s.E2e.{Task, Table, Subtask, task, subtask, set_subtask, parent}

-- The kernel calls that `run` makes for subtask `i`; times are ktime_t.
pub data Event : Type 0 where
  missed : (task_id subtask_id : ℕ) → Event
  wake : (i : ℕ) → Event
  start_timer : (i expiry : ℕ) → Event

-- The three readings of the clock in one round.
pub record Round : Type 0 where
  pub released : ℕ
  pub finished : ℕ
  pub checked : ℕ

abbrev pub ms_to_ktime : ℕ → ℕ
ms_to_ktime ms = ms * 1_000_000

-- `parent->period * cur->cumulative_exe_time / parent->exe_time`, in `uint32_t`; C leaves a
-- division by zero undefined.
unfoldable pub relative_deadline : Task → Subtask → ℕ
relative_deadline p s = u32 (p.period * s.cumulative_exe_time) / p.exe_time

-- `ddl`, counted from the release of the task's first subtask.
unfoldable pub deadline : Table → Subtask → ℕ
deadline t s =
    ms_to_ktime (relative_deadline (parent t s) s)
    + (subtask t (parent t s).subtask_start_idx).last_release_time

-- `parent->subtask_count - 1`, in `uint32_t`
unfoldable pub last_id : Task → ℕ
last_id p = u32 (p.subtask_count + (2 ^ 32 - 1))

-- The index of the successor.
unfoldable pub successor : Table → Subtask → ℕ
successor t s = u32 ((parent t s).subtask_start_idx + s.subtask_id + 1)

-- The last block: release the successor now, or by its timer one period after its last release.
unfoldable pub release_successor : Table → Subtask → ℕ → List Event
release_successor t s now =
    let k = successor t s in
    let last = (subtask t k).last_release_time in
    let due = ms_to_ktime (parent t s).period + last in
    if (0 == last) || leb due now then wake k ∷ [] else start_timer k due ∷ []

-- One round for the subtask at index `i`.
unfoldable pub run_events : Table → ℕ → Round → List Event
run_events t i r =
    let s = subtask t i in
    (if ltb (deadline t s) r.finished then missed s.task_id s.subtask_id ∷ [] else [])
    ++ ((if s.subtask_id == 0
          then start_timer i (r.released + ms_to_ktime (parent t s).period) ∷ []
          else [])
        ++ (if ltb s.subtask_id (last_id (parent t s))
            then release_successor t s r.checked
            else []))

-- `cur->last_release_time = ktime_get()`
unfoldable pub stamp : Table → ℕ → ℕ → Table
stamp t i now = set_subtask t i (record (subtask t i) { last_release_time = now })

pub record Step : Type 0 where
  pub table : Table
  pub events : List Event

unfoldable pub run_once : Table → ℕ → Round → Step
run_once t i r = let t' = stamp t i r.released in record { table = t'; events = run_events t' i r }

-- The loop, for the rounds until `kthread_should_stop()`.
unfoldable pub run : Table → ℕ → List Round → Step
run t i [] = record { table = t; events = [] }
run t i (r ∷ rs) =
    let one = run_once t i r in
    let rest = run one.table i rs in
    record { table = rest.table; events = one.events ++ rest.events }

-- `run_timer_func`, for the timer of subtask `i`.
unfoldable pub run_timer_func : ℕ → List Event
run_timer_func i = wake i ∷ []
