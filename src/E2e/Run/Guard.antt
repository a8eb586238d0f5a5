-- ===== src/E2e/Run/Guard.antt =====
-- The release guard: no release is requested earlier than one period after the last one.
use Prim.Native.Nat.{max}
use cse522s.Base.{
  ℕ, ◌+◌, ◌^◌, ◌<◌, ◌≡◌, ◌≢◌, refl, List, [], ◌∷◌, ◌++◌, arith, ◌==◌, if◌then◌else◌, length,
  get_or-set_self,
}
use cse522s.E2e.{Table, subtask, parent, no_subtask}
use cse522s.E2e.Run.{
  Event, missed, wake, start_timer, Round, ms_to_ktime, last_id, successor, release_successor,
  run_events, stamp, run_once,
}

-- The times at which the events, issued at `now`, let subtask `k` run.
unfoldable pub grants : ℕ → ℕ → List Event → List ℕ
grants now k [] = []
grants now k (missed _ _ ∷ es) = grants now k es
grants now k (wake j ∷ es) = if j == k then now ∷ grants now k es else grants now k es
grants now k (start_timer j due ∷ es) = if j == k then due ∷ grants now k es else grants now k es

-- The specification: at once if the subtask has not run yet, else not before its next period.
unfoldable pub guard_time : (now last period : ℕ) → ℕ
guard_time now last period = if last == 0 then now else max now (last + period)

grants-append :
    (now k : ℕ) (xs ys : List Event) → grants now k (xs ++ ys) ≡ grants now k xs ++ grants now k ys
unfolding grants
grants-append now k [] ys = refl
grants-append now k (missed _ _ ∷ xs) ys = grants-append now k xs ys
grants-append now k (wake j ∷ xs) ys = ground (arith, grants-append now k xs ys)
grants-append now k (start_timer j due ∷ xs) ys = ground (arith, grants-append now k xs ys)

-- A subtask that is not the last of its task requests exactly one release of its successor, at the
-- time of the release guard. The successor is another subtask, and the count is positive.
pub run_events-grants :
    (t : Table) (i : ℕ) (r : Round)
    → successor t (subtask t i) ≢ i
    → (subtask t i).subtask_id + 1 < (parent t (subtask t i)).subtask_count
    → (parent t (subtask t i)).subtask_count < 2 ^ 32
    → grants r.checked (successor t (subtask t i)) (run_events t i r)
      ≡ guard_time r.checked
          (subtask t (successor t (subtask t i))).last_release_time
          (ms_to_ktime (parent t (subtask t i)).period)
        ∷ []
unfolding run_events release_successor grants guard_time last_id
run_events-grants t i r ne more small = ground arith

-- The last subtask of a task releases nobody else.
pub run_events-last :
    (t : Table) (i k : ℕ) (r : Round)
    → k ≢ i
    → (subtask t i).subtask_id + 1 ≡ (parent t (subtask t i)).subtask_count
    → (parent t (subtask t i)).subtask_count < 2 ^ 32
    → grants r.checked k (run_events t i r) ≡ []
unfolding run_events grants last_id
run_events-last t i k r ne last small = ground arith

-- The first subtask of a task is next released exactly one period after this release; any other
-- subtask does not release itself. Here `successor` names another subtask.
pub run_once_self :
    (t : Table) (i : ℕ) (r : Round)
    → i < length t.subtasks
    → successor t (subtask t i) ≢ i
    → grants r.checked i (run_once t i r).events ≡ (
        if (subtask t i).subtask_id == 0
        then (r.released + ms_to_ktime (parent t (subtask t i)).period) ∷ []
        else [])
unfolding run_once run_events release_successor grants stamp successor last_id
run_once_self t i r lt ne = ground (
  arith,
  get_or-set_self t.subtasks i (record (subtask t i) { last_release_time = r.released }) no_subtask
      lt,
)
