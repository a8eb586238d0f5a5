-- ===== src/Timing/Stamps.antt =====
-- The order of the stamps, and when the fifth is taken.
use mathlib.Core.Path.{subst}
use cse522s.Base.{Holds, ℕ, ◌≤◌, ◌≡◌, Bool, true, false, arith}
use cse522s.Timing.{
  Phase, stamp_0, create, stamp_1, start, check, stamp_2, loaded, failed, stopping, unloaded,
  Thread, absent, created, stamp_4, sleep, stamp_5, sleep_child, stamp_7, returned, never_ran,
  Timer, idle, armed, fired, State, initial, timer_at, child_timer_at, thread_at, phase_at,
  module_code, timer_function, child_timer_function, thread_fn, act, Reaches,
}

-- How far the thread has come.
abbrev pub progress : Thread → ℕ
progress absent = 0
progress created = 0
progress never_ran = 0
progress stamp_4 = 1
progress sleep = 2
progress stamp_5 = 3
progress sleep_child = 4
progress stamp_7 = 5
progress returned = 6

-- Unloading has begun.
abbrev pub has_stopped : Phase → Bool
has_stopped stopping = true
has_stopped unloaded = true
has_stopped _ = false

abbrev is_unloaded : Phase → Bool
is_unloaded unloaded = true
is_unloaded _ = false

-- The timer has not been started.
abbrev is_early : Phase → Bool
is_early stamp_0 = true
is_early create = true
is_early stamp_1 = true
is_early start = true
is_early _ = false

-- The first stamp, and the first two, have been taken.
abbrev has_0 : Phase → Bool
has_0 create = true
has_0 stamp_1 = true
has_0 _ = false

abbrev has_1 : Phase → Bool
has_1 start = true
has_1 check = true
has_1 stamp_2 = true
has_1 loaded = true
has_1 stopping = true
has_1 unloaded = true
has_1 _ = false

abbrev has_2 : Phase → Bool
has_2 loaded = true
has_2 stopping = true
has_2 unloaded = true
has_2 _ = false

abbrev is_fired : Timer → Bool
is_fired fired = true
is_fired _ = false

abbrev is_idle : Timer → Bool
is_idle idle = true
is_idle _ = false

-- The stamps that have been taken are in order, and none lies in the future.
pub record Inv (now : ℕ) (ts : ℕ → ℕ) (p : Phase) (h : Thread) (timer child : Timer) : Type 0 where
  pub early : is_early p ≡ true → is_idle timer ≡ true
  pub ran : 1 ≤ progress h → is_fired timer ≡ true
  pub stopped : 3 ≤ progress h → has_stopped p ≡ true
  pub ended : is_unloaded p ≡ true → 6 ≤ progress h
  pub child_armed : is_idle child ≡ false → 4 ≤ progress h
  pub child_fired : 5 ≤ progress h → is_fired child ≡ true
  pub child_once : is_fired child ≡ true → 5 ≤ progress h
  pub order_0 : has_0 p ≡ true → ts 0 ≤ now
  pub order_1 : has_1 p ≡ true → (ts 0 ≤ ts 1) × (ts 1 ≤ now)
  pub order_2 : has_2 p ≡ true → (ts 1 ≤ ts 2) × (ts 2 ≤ now)
  pub order_timer : is_idle timer ≡ false → (ts 0 ≤ ts 1) × (ts 1 ≤ now)
  pub order_3 : 1 ≤ progress h → (ts 1 ≤ ts 3) × (ts 3 ≤ now)
  pub order_4 : 2 ≤ progress h → (ts 3 ≤ ts 4) × (ts 4 ≤ now)
  pub order_5 : 4 ≤ progress h → (ts 4 ≤ ts 5) × (ts 5 ≤ now)
  pub order_6 : 5 ≤ progress h → (ts 5 ≤ ts 6) × (ts 6 ≤ now)
  pub order_7 : 6 ≤ progress h → (ts 6 ≤ ts 7) × (ts 7 ≤ now)

abbrev IsOrdered : State → Type 0
IsOrdered s = Inv s.now s.stamps s.phase s.thread s.timer s.child_timer

module _ (now t : ℕ) (ts : ℕ → ℕ) (later : now ≤ t) where
  timer-Inv :
      (p : Phase) (h : Thread) (timer child : Timer)
      → Inv now ts p h timer child
      → Holds IsOrdered (
          timer_at t timer (record {
            now = now;
            stamps = ts;
            phase = p;
            thread = h;
            timer = timer;
            child_timer = child;
          }))
  timer-Inv p absent armed child inv = ground (arith, inv)
  timer-Inv p created armed child inv = ground (arith, inv)
  timer-Inv p h armed child inv = ground (arith, inv)
  timer-Inv p h idle child inv = tt
  timer-Inv p h fired child inv = tt

  child_timer-Inv :
      (p : Phase) (h : Thread) (timer child : Timer)
      → Inv now ts p h timer child
      → Holds IsOrdered (
          child_timer_at t child (record {
            now = now;
            stamps = ts;
            phase = p;
            thread = h;
            timer = timer;
            child_timer = child;
          }))
  child_timer-Inv p absent timer armed inv = ground (arith, inv)
  child_timer-Inv p created timer armed inv = ground (arith, inv)
  child_timer-Inv p h timer armed inv = ground (arith, inv)
  child_timer-Inv p h timer idle inv = tt
  child_timer-Inv p h timer fired inv = tt

  thread-Inv :
      (p : Phase) (h : Thread) (timer child : Timer)
      → Inv now ts p h timer child
      → Holds IsOrdered (
          thread_at t h (record {
            now = now;
            stamps = ts;
            phase = p;
            thread = h;
            timer = timer;
            child_timer = child;
          }))
  thread-Inv p stamp_4 timer child inv = ground (arith, inv)
  thread-Inv p stamp_5 timer child inv = ground (arith, inv)
  thread-Inv p stamp_7 timer child inv = ground (arith, inv)
  thread-Inv p absent timer child inv = tt
  thread-Inv p _ timer child inv = tt

  phase-Inv :
      (refused : Bool) (p : Phase) (h : Thread) (timer child : Timer)
      → Inv now ts p h timer child
      → Holds IsOrdered (
          phase_at refused t p (record {
            now = now;
            stamps = ts;
            phase = p;
            thread = h;
            timer = timer;
            child_timer = child;
          }))
  phase-Inv refused stamp_0 h timer child inv = ground (arith, inv)
  phase-Inv refused create h timer child inv = ground (arith, inv)
  phase-Inv refused stamp_1 h timer child inv = ground (arith, inv)
  phase-Inv refused start h timer child inv = ground (arith, inv)
  phase-Inv refused check absent timer child inv = ground (arith, inv)
  phase-Inv refused check h timer child inv = ground (arith, inv)
  phase-Inv refused stamp_2 h timer child inv = ground (arith, inv)
  phase-Inv refused loaded h timer child inv = ground (arith, inv)
  phase-Inv refused stopping returned timer child inv = ground (arith, inv)
  phase-Inv refused stopping never_ran timer child inv = ground (arith, inv)
  phase-Inv refused stopping h timer child inv = tt
  phase-Inv refused failed h timer child inv = tt
  phase-Inv refused _ h timer child inv = tt

initial-Inv : IsOrdered initial
initial-Inv = ground arith

reaches-Inv : (s : State) → Reaches s → IsOrdered s
unfolding act
reaches-Inv s Reaches.here = initial-Inv
reaches-Inv s (Reaches.after {s = r} (module_code refused) t p later e) =
    subst (Holds IsOrdered) e (
      phase-Inv r.now t r.stamps later refused r.phase r.thread r.timer r.child_timer
        (reaches-Inv r p))
reaches-Inv s (Reaches.after {s = r} timer_function t p later e) =
    subst (Holds IsOrdered) e
      (timer-Inv r.now t r.stamps later r.phase r.thread r.timer r.child_timer (reaches-Inv r p))
reaches-Inv s (Reaches.after {s = r} child_timer_function t p later e) = subst (Holds IsOrdered) e (
    child_timer-Inv r.now t r.stamps later r.phase r.thread r.timer r.child_timer (reaches-Inv r p))
reaches-Inv s (Reaches.after {s = r} thread_fn t p later e) =
    subst (Holds IsOrdered) e
      (thread-Inv r.now t r.stamps later r.phase r.thread r.timer r.child_timer (reaches-Inv r p))

-- In every interleaving on a clock that does not go back: when the module has been unloaded, its stamps
-- are in the order 0, 1, 2 and 1, 3, 4, 5, 6, 7, so that no printed difference is negative; and the
-- thread takes stamp 5 only when unloading has begun.
pub stamps-ordered :
    (s : State)
    → Reaches s
    → (s.phase ≡ unloaded
        → (s.stamps 0 ≤ s.stamps 1)
          × (s.stamps 1 ≤ s.stamps 2)
          × (s.stamps 1 ≤ s.stamps 3)
          × (s.stamps 3 ≤ s.stamps 4)
          × (s.stamps 4 ≤ s.stamps 5)
          × (s.stamps 5 ≤ s.stamps 6)
          × (s.stamps 6 ≤ s.stamps 7))
      × (4 ≤ progress s.thread → has_stopped s.phase ≡ true)
stamps-ordered s p =
    let inv = reaches-Inv s p in ((λ e. finished s e inv), λ far. inv.stopped (omega (arith, far)))
  where
    finished :
        (s : State)
        → s.phase ≡ unloaded
        → IsOrdered s
        → (s.stamps 0 ≤ s.stamps 1)
          × (s.stamps 1 ≤ s.stamps 2)
          × (s.stamps 1 ≤ s.stamps 3)
          × (s.stamps 3 ≤ s.stamps 4)
          × (s.stamps 4 ≤ s.stamps 5)
          × (s.stamps 5 ≤ s.stamps 6)
          × (s.stamps 6 ≤ s.stamps 7)
    finished s e inv = ground (arith, e, inv)
