-- ===== src/Timing.antt =====
-- studio8/timing_module.c: eight time stamps, taken by loading and unloading, a timer, a thread and a
-- second timer that the thread starts. Each of them moves by steps that interleave freely.
pub mod Stamps
mod Tests
use cse522s.Base.{ℕ, ◌≤◌, ◌≡◌, Bool, true, false, Option, none, some, ◌==◌, if◌then◌else◌}

-- Where loading or unloading is: each is one step up to the next reading of the clock or wait.
pub data Phase : Type 0 where
  stamp_0 : Phase
  create : Phase
  stamp_1 : Phase
  start : Phase
  check : Phase  -- `IS_ERR(kthread)`
  stamp_2 : Phase
  loaded : Phase
  failed : Phase
  stopping : Phase  -- in `kthread_stop(kthread)`
  unloaded : Phase
  crashed : Phase  -- an access through an error pointer or NULL

-- Where `thread_fn` is.
pub data Thread : Type 0 where
  absent : Thread  -- not created, or an error pointer
  created : Thread  -- it starts when it is woken
  stamp_4 : Thread
  sleep : Thread
  stamp_5 : Thread
  sleep_child : Thread
  stamp_7 : Thread
  returned : Thread
  never_ran : Thread  -- stopped before it was woken

pub data Timer : Type 0 where
  idle : Timer
  armed : Timer
  fired : Timer

pub record State : Type 0 where
  pub now : ℕ
  pub stamps : ℕ → ℕ  -- `ts_array`
  pub phase : Phase
  pub thread : Thread
  pub timer : Timer
  pub child_timer : Timer

-- After `ktime_set(0, 0)` for all stamps.
abbrev pub initial : State
initial = record {
  now = 0;
  stamps = λ i. 0;
  phase = stamp_0;
  thread = absent;
  timer = idle;
  child_timer = idle;
}

abbrev pub stamp : (ℕ → ℕ) → ℕ → ℕ → ℕ → ℕ
stamp ts i t k = if k == i then t else ts k

-- `wake_up_process`: a thread that runs goes on as before.
abbrev pub wake_up : Thread → Thread
wake_up created = stamp_4
wake_up sleep = stamp_5
wake_up sleep_child = stamp_7
wake_up t = t

-- `kthread_stop` wakes the thread too; one that never ran does not start any more.
abbrev pub stop : Thread → Thread
stop created = never_ran
stop t = wake_up t

-- A timer function: the stamp and the waking of the thread, which must not be an error pointer.
abbrev pub fire : (i t : ℕ) → Thread → State → State
fire i t absent s = record s { now = t; stamps = stamp s.stamps i t; phase = crashed }
fire i t thread s = record s { now = t; stamps = stamp s.stamps i t; thread = wake_up thread }

abbrev pub timer_at : (t : ℕ) → Timer → State → Option State
timer_at t armed s = some (fire 3 t s.thread (record s { timer = fired }))
timer_at t _ s = none

abbrev pub child_timer_at : (t : ℕ) → Timer → State → Option State
child_timer_at t armed s = some (fire 6 t s.thread (record s { child_timer = fired }))
child_timer_at t _ s = none

-- The next step of `thread_fn` at time `t`; `none` if it waits or does not run.
abbrev pub thread_at : (t : ℕ) → Thread → State → Option State
thread_at t stamp_4 s = some (record s { now = t; stamps = stamp s.stamps 4 t; thread = sleep })
thread_at t stamp_5 s =
    some
      (record s { now = t; stamps = stamp s.stamps 5 t; thread = sleep_child; child_timer = armed })
thread_at t stamp_7 s = some (record s { now = t; stamps = stamp s.stamps 7 t; thread = returned })
thread_at t _ s = none

-- `hrtimer_cancel`
abbrev pub cancel : Timer → Timer
cancel armed = idle
cancel t = t

-- `kthread_stop(child_kthread)` follows the return of `kthread_stop(kthread)`; the child's pointer is
-- NULL when the thread never ran. Then the timers are cancelled.
abbrev pub unload : Thread → State → Option State
unload returned s =
    some (record s { phase = unloaded; timer = cancel s.timer; child_timer = cancel s.child_timer })
unload never_ran s = some (record s { phase = crashed })
unload _ s = none

-- The next step of `timing_init`, and, once loaded, of `timing_exit`; `refused` says that
-- `kthread_create` returns an error.
abbrev pub phase_at : (refused : Bool) (t : ℕ) → Phase → State → Option State
phase_at refused t stamp_0 s =
    some (record s { now = t; stamps = stamp s.stamps 0 t; phase = create })
phase_at refused t create s =
    some (record s { thread = if refused then absent else created; phase = stamp_1 })
phase_at refused t stamp_1 s =
    some (record s { now = t; stamps = stamp s.stamps 1 t; phase = start })
phase_at refused t start s = some (record s { timer = armed; phase = check })
phase_at refused t check s = elim s.thread [
  | absent ↦ some (record s { phase = failed })
  | _ ↦ some (record s { phase = stamp_2 })
]
phase_at refused t stamp_2 s =
    some (record s { now = t; stamps = stamp s.stamps 2 t; phase = loaded })
phase_at refused t loaded s = some (record s { thread = stop s.thread; phase = stopping })
phase_at refused t stopping s = unload s.thread s
phase_at refused t _ s = none

pub data Actor : Type 0 where
  module_code : (refused : Bool) → Actor
  timer_function : Actor
  child_timer_function : Actor
  thread_fn : Actor

-- One step of one of the four, at time `t`.
unfoldable pub act : Actor → (t : ℕ) → State → Option State
act (module_code refused) t s = phase_at refused t s.phase s
act timer_function t s = timer_at t s.timer s
act child_timer_function t s = child_timer_at t s.child_timer s
act thread_fn t s = thread_at t s.thread s

-- The states of all interleavings, on a clock that does not go back.
pub data Reaches : State → Type 0 where
  here : Reaches initial
  after :
      {s u : State} (actor : Actor) (t : ℕ)
      → Reaches s
      → s.now ≤ t
      → act actor t s ≡ some u
      → Reaches u
