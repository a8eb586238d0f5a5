-- ===== src/Realtime.antt =====
-- studio7/realtime_module.c: one timer that wakes three threads at three rates.
pub mod Rates
mod Tests
use cse522s.Base.{
  ℕ, zero, suc, ◌+◌, ◌%◌, Bool, Option, none, some, List, [], ◌∷◌, ◌++◌, ◌==◌, if◌then◌else◌, u32,
  ℤ, pos,
}

pub data Thread : Type 0 where
  kthread : Thread
  kthread1 : Thread
  kthread2 : Thread

pub data Call : Type 0 where
  create : Thread → Call
  bind : Thread → (core : ℕ) → Call
  set_fifo : Thread → (priority : ℕ) → Call
  wake : Thread → Call
  start_timer : (sec nsec : ℕ) → Call
  forward_timer : Call
  cancel_timer : Call
  stop : Thread → Call

-- `data`, `data1` and `data2`: how often a thread reads the clock each time it is woken
abbrev pub iterations : Thread → ℕ
iterations kthread = 4_500_000
iterations kthread1 = 18_000_000
iterations kthread2 = 36_000_000

abbrev pub priority : Thread → ℕ
priority kthread = 60
priority kthread1 = 50
priority kthread2 = 40

-- `timer_function`: its calls and the next `rate`, an `unsigned int`.
unfoldable pub timer_function : (rate : ℕ) → List Call × ℕ
timer_function rate = (
  wake kthread
      ∷ ((if rate % 2 == 0 then wake kthread1 ∷ [] else [])
          ++ ((if rate % 4 == 0 then wake kthread2 ∷ [] else []) ++ forward_timer ∷ [])),
  u32 (rate + 1),
)

-- The calls of the first `n` expiries, and `rate` after them. It is 0 when the module is loaded.
unfoldable pub expiries : (n : ℕ) → List Call × ℕ
expiries zero = ([], 0)
expiries (suc n) =
    let before = expiries n in let now = timer_function before.1 in (before.0 ++ now.0, now.1)

-- How often `thread_fn` reads the clock, for the wakings until `kthread_should_stop`.
pub readings : Thread → (wakings : ℕ) → ℕ
readings t zero = 0
readings t (suc wakings) = iterations t + readings t wakings

-- `kthread_create` and what follows up to the waking; an error is seen only after two uses of the
-- thread. `rest` is what comes after.
abbrev pub start_thread : Thread → (error : Option ℤ) → ℤ × List Call → ℤ × List Call
start_thread t (some err) rest = (err, create t ∷ bind t 3 ∷ set_fifo t (priority t) ∷ [])
start_thread t none rest = (rest.0, create t ∷ bind t 3 ∷ set_fifo t (priority t) ∷ wake t ∷ rest.1)

unfoldable pub realtime_init :
    (period_sec period_nsec : ℕ) (error error1 error2 : Option ℤ) → ℤ × List Call
realtime_init period_sec period_nsec error error1 error2 = start_thread kthread error (
    start_thread kthread1 error1
      (start_thread kthread2 error2 (pos 0, start_timer period_sec period_nsec ∷ [])))

abbrev pub realtime_exit : List Call
realtime_exit = cancel_timer ∷ stop kthread ∷ stop kthread1 ∷ stop kthread2 ∷ []
