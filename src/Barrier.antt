-- ===== src/Barrier.antt =====
-- studio8/timing_module_q7.c: four threads that take two stamps each and meet at a barrier, an atomic
-- counter; their steps interleave freely. Each thread has its own number, which it reads through a
-- pointer to a variable of `timing_init`.
pub mod Safety
mod Tests
use cse522s.Base.{
  ℕ, zero, suc, ◌+◌, ◌-◌, ◌*◌, ◌^◌, ◌≤◌, ◌≡◌, Bool, true, false, Option, none, some, List, [], ◌∷◌,
  ◌++◌, ltb, ◌==◌, if◌then◌else◌, u32, set, get_elem?, get_or, ℤ, pos,
}

-- Where a thread is.
pub data Thread : Type 0 where
  stamp_before : Thread
  stamp_after : Thread
  arrive : Thread  -- `atomic_sub_return(1, &counter)`
  spin : Thread
  returned : Thread

pub record State : Type 0 where
  pub counter : ℕ  -- atomic_t, as its 32-bit pattern
  pub now : ℕ
  pub ts_array : List ℕ
  pub threads : List Thread

-- After `setup(4, &counter)`, when the threads have been woken.
abbrev pub initial : State
initial = record {
  counter = 4;
  now = 0;
  ts_array = 0 ∷ 0 ∷ 0 ∷ 0 ∷ 0 ∷ 0 ∷ 0 ∷ 0 ∷ [];
  threads = stamp_before ∷ stamp_before ∷ stamp_before ∷ stamp_before ∷ [];
}

-- `atomic_sub_return(1, …)`
abbrev pub decrement : ℕ → ℕ
decrement c = u32 (c + (2 ^ 32 - 1))

-- The next step of thread `i`, `thread_fn` with the number `i`, at time `t`. A turn of the loop in `wait`
-- is one step.
abbrev pub thread_at : (i t : ℕ) → Thread → State → Option State
thread_at i t stamp_before s = some (record s {
  now = t;
  ts_array = set s.ts_array (i * 2) t;
  threads = set s.threads i stamp_after;
})
thread_at i t stamp_after s = some (record s {
  now = t;
  ts_array = set s.ts_array (i * 2 + 1) t;
  threads = set s.threads i arrive;
})
thread_at i t arrive s =
    some (record s { counter = decrement s.counter; threads = set s.threads i spin })
thread_at i t spin s =
    some (if s.counter == 0 then record s { threads = set s.threads i returned } else s)
thread_at i t returned s = none

pub data Reaches : State → Type 0 where
  here : Reaches initial
  after :
      {s u : State} (i t : ℕ) (pc : Thread)
      → Reaches s
      → s.now ≤ t
      → get_elem? s.threads i ≡ some pc
      → thread_at i t pc s ≡ some u
      → Reaches u

-- The calls of `timing_init`, where `errors` are those of the four calls of `kthread_create`.
pub data Call : Type 0 where
  create : (i : ℕ) → Call
  set_fifo : (i priority : ℕ) → Call
  bind : (i core : ℕ) → Call
  wake : (i : ℕ) → Call

abbrev pub create_threads : (i : ℕ) → List (Option ℤ) → ℤ × List Call → ℤ × List Call
create_threads i [] rest = rest
create_threads i (some err ∷ errors) rest = (err, create i ∷ [])
create_threads i (none ∷ errors) rest =
    let later = create_threads (suc i) errors rest in (later.0, create i ∷ later.1)

unfoldable pub timing_init : (error1 error2 error3 error4 : Option ℤ) → ℤ × List Call
timing_init error1 error2 error3 error4 =
    create_threads 1 (error1 ∷ error2 ∷ error3 ∷ error4 ∷ []) (
      pos 0,
      set_fifo 1 60
          ∷ set_fifo 2 55
          ∷ set_fifo 3 50
          ∷ set_fifo 4 45
          ∷ bind 1 0
          ∷ bind 2 1
          ∷ bind 3 2
          ∷ bind 4 4
          ∷ wake 1
          ∷ wake 2
          ∷ wake 3
          ∷ wake 4
          ∷ [],
    )

-- `timing_exit`: the latest stamp before the barrier. `best` starts with the first stamp.
abbrev pub latest_before : (rounds i : ℕ) → List ℕ → (best : ℕ) → ℕ
latest_before zero i ts best = best
latest_before (suc rounds) i ts best =
    latest_before rounds (suc i) ts
      (if ltb best (get_or ts (i * 2) 0) then get_or ts (i * 2) 0 else best)

-- `array[i]` takes the value of `array[j]`, and the other way round.
abbrev pub exchange : List ℕ → (i j : ℕ) → List ℕ
exchange l i j = set (set l i (get_or l j 0)) j (get_or l i 0)

-- The inner loop over `j`: the comparison is of `array[j]` and `array[j + 1]`, the exchange of
-- `array[i]` and `array[j]`.
abbrev pub sort_inner : (rounds i j : ℕ) → List ℕ → List ℕ
sort_inner zero i j l = l
sort_inner (suc rounds) i j l =
    sort_inner rounds i (suc j)
      (if ltb (get_or l (j + 1) 0) (get_or l j 0) then exchange l i j else l)

-- The outer loop, from `i` down to 1.
abbrev pub sort_outer : (i : ℕ) → List ℕ → List ℕ
sort_outer zero l = l
sort_outer (suc i) l = sort_outer i (sort_inner i (suc i) 1 l)

-- The array whose entries `timing_exit` compares with the first.
unfoldable pub exit_array : List ℕ → List ℕ
exit_array ts = sort_outer 4 (
    latest_before 4 0 ts (get_or ts 0 0)
    ∷ get_or ts 1 0
    ∷ get_or ts 3 0
    ∷ get_or ts 5 0
    ∷ get_or ts 7 0
    ∷ [])
