-- ===== src/E2e/Threads/Tests.antt =====
-- The table of lab2/sched.h is laid out, and runs of its threads.
use native.Mathlib.Decide.{ℕ_discrete}
use mathlib.Core.Path.{subst}
use cse522s.Base.{
  ℕ, zero, suc, ◌+◌, ◌^◌, ◌≤◌, ◌<◌, ◌≡◌, ◌⊎◌, refl, some, none, length, arith, All, [],
}
use cse522s.E2e.{task, subtask, parent}
use cse522s.E2e.Tables.{sched, entry, row}
use cse522s.E2e.Run.{stamp, release_successor, last_id, successor, wake}
use cse522s.E2e.Init.{indices, init_run, clear_releases, cal_timer_func, wake_tasks}
use cse522s.E2e.Threads.{
  asleep, woken, working, starting, State, perform_calls, initial, released, finished, own_started,
  checked, called, tested, set_phase, expired, begun, successor_calls, Step, release, finish,
  start_own, check, call, test, sleep, expire, begin, Reaches, here, after,
}
use cse522s.E2e.Threads.Static.{IsLaidOut}
use cse522s.E2e.Threads.Aims.{last, period}
use cse522s.E2e.Threads.Spacing.{Spaced, Step-Spaced}
use cse522s.E2e.Threads.Precedence.{Reaches-precedence}
use cse522s.E2e.Threads.Awake.{Reaches-awake}

program : Unit {0}
unfolding sched entry row stamp release_successor last_id successor indices init_run clear_releases
    cal_timer_func wake_tasks perform_calls successor_calls
program = tt

all_below : (P : ℕ → Type 0) (n i : ℕ) → All P (indices n i) → (k : ℕ) → i ≤ k → k < i + n → P k
unfolding indices
all_below P zero i h k le lt = absurd (omega (arith, le, lt))
all_below P (suc n) i (p, h) k le lt = elim (ℕ_discrete i k) [
  | yes e ↦ subst P e p
  | no ne ↦ all_below P n (suc i) h k (omega (arith, le, ne)) (omega (arith, lt))
]

sched-IsLaidOut : IsLaidOut sched
unfolding program
sched-IsLaidOut = record {
  small = omega arith;
  place = λ i lt.
      all_below
        (λ i. (parent sched (subtask sched i)).subtask_start_idx + (subtask sched i).subtask_id ≡ i)
        9 0 (omega arith) i (omega arith) lt;
  count = λ i lt.
      all_below
        (λ i.
          ((subtask sched i).subtask_id < (parent sched (subtask sched i)).subtask_count)
          × ((parent sched (subtask sched i)).subtask_count < 2 ^ 32))
        9 0 (omega arith) i (omega arith) lt;
  next = λ i lt.
      all_below
        (λ i.
          (subtask sched i).subtask_id + 1 < (parent sched (subtask sched i)).subtask_count
          → (suc i < length sched.subtasks)
            × ((subtask sched (suc i)).task_id ≡ (subtask sched i).task_id))
        9 0 (ground arith) i (omega arith) lt;
  first = λ j lt.
      all_below (λ j. (subtask sched (task sched j).subtask_start_idx).subtask_id ≡ 0) 5 0
        (omega arith) j (omega arith) lt;
}

-- The start of a run, times in ns: threads 3 and 4 go to sleep, the first timer, and the first round of
-- subtask 3.
abbrev asleep_3 : State
asleep_3 = set_phase 3 asleep (tested 3 (initial sched 1))

abbrev asleep_4 : State
asleep_4 = set_phase 4 asleep (tested 4 asleep_3)

abbrev begun_state : State
begun_state = begun 100_000_000 asleep_4

begun_reached : Reaches sched begun_state
unfolding program
begun_reached =
    after
      (after
        (after (after (after (here {now = 1} (omega arith)) (test 3 refl)) (sleep 3 refl))
          (test 4 refl))
        (sleep 4 refl))
      (begin 100_000_000 refl (omega arith))

abbrev released_3 : State
released_3 = released 3 100_000_100 begun_state

abbrev own_3 : ℕ → State
own_3 t = own_started 3 (finished 3 t released_3)

own_3_reached : (t : ℕ) → 100_000_100 ≤ t → Reaches sched (own_3 t)
unfolding program
own_3_reached t le =
    after
      (after (after begun_reached (release 3 100_000_100 (omega arith) refl (omega arith)))
        (finish 3 t (omega arith) refl le))
      (start_own 3 (omega arith) refl)

-- Subtask 3 wakes subtask 4 and goes to sleep before its timer expires.
abbrev called_3 : State
called_3 = called 3 (wake 4) [] (checked 3 300_000_100 (own_3 300_000_000))

abbrev slept_3 : State
slept_3 = set_phase 3 asleep (tested 3 called_3)

slept_3_reached : Reaches sched slept_3
unfolding program
slept_3_reached =
    after
      (after
        (after
          (after (own_3_reached 300_000_000 (omega arith))
            (check 3 300_000_100 (omega arith) refl (omega arith)))
          (call 3 (wake 4) [] refl))
        (test 3 refl))
      (sleep 3 refl)

abbrev next_due : State
next_due = expired 3 1_100_000_100 slept_3

next_due_reached : Reaches sched next_due
unfolding program
next_due_reached =
    after slept_3_reached (expire 3 1_100_000_100 1_100_000_100 refl (omega arith) (omega arith))

next_release : Step next_due (released 3 1_100_000_200 next_due)
unfolding program
next_release = release 3 1_100_000_200 (omega arith) refl (omega arith)

Step-Spaced_example : Spaced (period sched 3) next_due (released 3 1_100_000_200 next_due) 3
unfolding program
Step-Spaced_example = Step-Spaced sched-IsLaidOut next_due_reached refl next_release 3 refl

Reaches-precedence_example :
    (slept_3.releases 4 ≤ slept_3.finishes 3) × (slept_3.finishes 3 ≤ slept_3.releases 3)
unfolding program
Reaches-precedence_example = Reaches-precedence sched-IsLaidOut slept_3_reached refl 3 (omega arith)

Reaches-awake_example :
    (slept_3.phase 3 ≡ woken)
    ⊎ ((slept_3.phase 3 ≡ working)
        ⊎ ((slept_3.phase 3 ≡ starting)
            ⊎ (slept_3.timer 3 ≡ some (last slept_3.table 3 + period sched 3))))
unfolding program
Reaches-awake_example = Reaches-awake sched-IsLaidOut slept_3_reached refl refl 3 (omega arith) refl

-- When it finishes only after its period, the timer that it starts expires at once, before it sleeps;
-- then it sleeps without a timer.
abbrev late : State
late = set_phase 3 asleep (
    tested 3 (
      called 3 (wake 4) []
        (checked 3 1_200_000_200 (expired 3 1_200_000_100 (own_3 1_200_000_000)))))

late_reached : Reaches sched late
unfolding program
late_reached =
    after
      (after
        (after
          (after
            (after (own_3_reached 1_200_000_000 (omega arith))
              (expire 3 1_100_000_100 1_200_000_100 refl (omega arith) (omega arith)))
            (check 3 1_200_000_200 (omega arith) refl (omega arith)))
          (call 3 (wake 4) [] refl))
        (test 3 refl))
      (sleep 3 refl)

late_forgotten : (late.phase 3 ≡ asleep) × (late.timer 3 ≡ none) × (late.lost 3 ≡ 1)
unfolding program
late_forgotten = (refl, refl, refl)
