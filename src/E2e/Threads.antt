-- ===== src/E2e/Threads.antt =====
-- lab2/E2E.c in "run" mode: all threads of `run`, their timers, the first timer and the unloading, whose
-- steps interleave freely. A round of a thread is cut where other threads and the timers can come in
-- between.
pub mod Static
pub mod Update
pub mod Aims
pub mod Basic
pub mod Count
pub mod Precedence
pub mod First
pub mod Spacing
pub mod Awake
mod Tests
use cse522s.Base.{
  ℕ, zero, suc, ◌+◌, ◌≤◌, ◌<◌, ◌≡◌, Bool, true, false, Option, none, some, List, [], ◌∷◌, length,
  ltb, ◌==◌, if◌then◌else◌,
}
use cse522s.E2e.{Table, subtask, parent}
use cse522s.E2e.Run.{
  Event, missed, wake, start_timer, release_successor, last_id, stamp, ms_to_ktime,
}
use cse522s.E2e.Init
use cse522s.E2e.Init.{Call, sub, cal_timer_func, init_run}

-- Where a thread is: asleep, from `set_current_state` until a wake-up (`schedule` then returns, or does
-- not wait at all), woken, at work on a release, before it starts its own timer, before it looks at its
-- successor, before the calls that it has decided on, before it sets its state to sleep, or at its end.
-- With no calls left it is before the test of the loop.
pub data Phase : Type 0 where
  asleep : Phase
  woken : Phase
  working : Phase
  starting : Phase
  checking : Phase
  calling : List Event → Phase
  retiring : Phase
  ended : Phase

-- `timer k` is the expiry for which the timer of subtask `k` is started. `releases` and `finishes`
-- count the rounds of each thread, and `lost` the calls of `wake_up_process` that did not find it asleep.
pub record State : Type 0 where
  pub now : ℕ
  pub table : Table
  pub phase : ℕ → Phase
  pub timer : ℕ → Option ℕ
  pub cal_timer : Bool  -- started, and not yet expired
  pub unloading : Bool
  pub stopped : ℕ → Bool  -- `kthread_stop` was called
  pub releases : ℕ → ℕ
  pub finishes : ℕ → ℕ
  pub lost : ℕ → ℕ

abbrev pub update {ℓ} : {A : Type ℓ} → (ℕ → A) → ℕ → A → ℕ → A
update f i v k = if k == i then v else f k

-- `wake_up_process` does nothing to a thread that is not asleep.
abbrev pub wake_up : Phase → Phase
wake_up asleep = woken
wake_up p = p

abbrev pub missed_wake : Phase → ℕ
missed_wake asleep = 0
missed_wake p = 1

abbrev pub wake_thread : ℕ → State → State
wake_thread k s = record s {
  phase = update s.phase k (wake_up (s.phase k));
  lost = update s.lost k (s.lost k + missed_wake (s.phase k));
}

abbrev pub set_phase : ℕ → Phase → State → State
set_phase i p s = record s { phase = update s.phase i p }

-- What a call of `run` does to the threads and timers.
abbrev pub perform : Event → State → State
perform (missed task_id subtask_id) s = s
perform (wake k) s = wake_thread k s
perform (start_timer k expiry) s = record s { timer = update s.timer k (some expiry) }

-- The calls of the first timer's function.
abbrev pub perform_call : Call → State → State
perform_call (Init.wake (sub k)) s = wake_thread k s
perform_call _ s = s

unfoldable pub perform_calls : List Call → State → State
perform_calls [] s = s
perform_calls (c ∷ cs) s = perform_calls cs (perform_call c s)

-- When `E2E_init` returns; all threads have yet to go to sleep.
abbrev pub initial : Table → (now : ℕ) → State
initial t now = record {
  now = now;
  table = (init_run t).0;
  phase = λ k. calling [];
  timer = λ k. none;
  cal_timer = true;
  unloading = false;
  stopped = λ k. false;
  releases = λ k. 0;
  finishes = λ k. 0;
  lost = λ k. 0;
}

-- The thread of subtask `i` comes out of `schedule` and reads the clock.
abbrev pub released : (i t : ℕ) → State → State
released i t s = record s {
  now = t;
  table = stamp s.table i t;
  phase = update s.phase i working;
  releases = update s.releases i (suc (s.releases i));
}

-- `subtask_func` has returned.
abbrev pub finished : (i t : ℕ) → State → State
finished i t s = record s {
  now = t;
  phase = update s.phase i starting;
  finishes = update s.finishes i (suc (s.finishes i));
}

-- `hrtimer_start(&cur->timer, …)`, by the first subtask of a task.
abbrev pub own_started : ℕ → State → State
own_started i s =
    let cur = subtask s.table i in
    let due = cur.last_release_time + ms_to_ktime (parent s.table cur).period in
    record s {
      phase = update s.phase i checking;
      timer = if cur.subtask_id == 0 then update s.timer i (some due) else s.timer;
    }

-- The call that the thread decides on when it has looked at its successor at time `t`.
unfoldable pub successor_calls : Table → (i t : ℕ) → List Event
successor_calls table i t =
    let cur = subtask table i in
    if ltb cur.subtask_id (last_id (parent table cur)) then release_successor table cur t else []

abbrev pub checked : (i t : ℕ) → State → State
checked i t s = record s {
  now = t;
  phase = update s.phase i (calling (successor_calls s.table i t));
}

abbrev pub called : ℕ → Event → List Event → State → State
called i e es s = perform e (set_phase i (calling es) s)

-- `while(!kthread_should_stop())`
abbrev pub tested : ℕ → State → State
tested i s = set_phase i (if s.stopped i then ended else retiring) s

-- `run_timer_func`, at the expiry of the timer of subtask `k`.
abbrev pub expired : (k t : ℕ) → State → State
expired k t s = wake_thread k (record s { now = t; timer = update s.timer k none })

abbrev pub begun : (t : ℕ) → State → State
begun t s = perform_calls (cal_timer_func false s.table) (record s { now = t; cal_timer = false })

-- `kthread_stop` for subtask `k`, up to its wait. What `E2E_exit` cancels after that may still expire
-- here.
abbrev pub stop_thread : ℕ → State → State
stop_thread k s = wake_thread k (record s { stopped = update s.stopped k true })

pub data Step (s : State) : State → Type 0 where
  release :
      (i t : ℕ)
      → i < length s.table.subtasks
      → s.phase i ≡ woken
      → s.now ≤ t
      → Step s (released i t s)
  finish :
      (i t : ℕ)
      → i < length s.table.subtasks
      → s.phase i ≡ working
      → s.now ≤ t
      → Step s (finished i t s)
  start_own :
      (i : ℕ) → i < length s.table.subtasks → s.phase i ≡ starting → Step s (own_started i s)
  check :
      (i t : ℕ)
      → i < length s.table.subtasks
      → s.phase i ≡ checking
      → s.now ≤ t
      → Step s (checked i t s)
  call :
      (i : ℕ) (e : Event) (es : List Event)
      → s.phase i ≡ calling (e ∷ es)
      → Step s (called i e es s)
  test : (i : ℕ) → s.phase i ≡ calling [] → Step s (tested i s)
  sleep : (i : ℕ) → s.phase i ≡ retiring → Step s (set_phase i asleep s)
  expire : (k e t : ℕ) → s.timer k ≡ some e → e ≤ t → s.now ≤ t → Step s (expired k t s)
  begin : (t : ℕ) → s.cal_timer ≡ true → s.now ≤ t → Step s (begun t s)
  begin_exit : Step s (record s { unloading = true })
  stop : (k : ℕ) → s.unloading ≡ true → Step s (stop_thread k s)

pub data Reaches (t : Table) : State → Type 0 where
  here : {now : ℕ} → 0 < now → Reaches t (initial t now)
  after : {s u : State} → Reaches t s → Step s u → Reaches t u
