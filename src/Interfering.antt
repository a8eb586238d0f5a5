-- ===== src/Interfering.antt =====
-- studio13/interfering_module.c and interfering_process.c: a load of a given policy, priority, core and
-- period.
mod Tests
use cse522s.Base.{
  ℕ, zero, suc, ◌+◌, ◌*◌, ◌%◌, ◌^◌, Bool, true, false, ◌||◌, Option, none, some, List, [], ◌∷◌,
  ◌++◌, ltb, ◌==◌, if◌then◌else◌, ℤ, pos, negsuc,
}

pub data Policy : Type 0 where
  normal : Policy
  fifo : Policy
  rr : Policy

-- The module's parameters.
pub record Parameters : Type 0 where
  pub input_policy : ℕ
  pub priority : ℕ
  pub core : ℕ
  pub period : ℕ  -- in milliseconds, an `unsigned long`
  pub num_iter : ℕ

pub data Call : Type 0 where
  init_timer : Call
  create : Call
  set_scheduler : Policy → (priority : ℕ) → Call
  bind : (core : ℕ) → Call
  wake : Call
  start_timer : (sec nsec : ℕ) → Call
  forward_timer : (sec nsec : ℕ) → Call
  wait : Call  -- `schedule` until the timer wakes the thread
  read_clock : Call
  cancel_timer : Call
  stop : Call

-- The policy, and the priority that goes with it.
abbrev pub policy_of : Parameters → Option (Policy × ℕ)
policy_of p =
    if p.input_policy == 0
    then some (normal, 0)
    else if p.input_policy == 1
    then some (fifo, p.priority)
    else if p.input_policy == 2
    then some (rr, p.priority)
    else none

-- `interfering_init`, where `error` is that of `kthread_create`.
unfoldable pub interfering_init : (long_bits : ℕ) → Parameters → (error : Option ℤ) → ℤ × List Call
interfering_init long_bits p error = elim (policy_of p) [
  | none ↦ (negsuc 0, init_timer ∷ [])
  | some (policy, priority) ↦ elim error [
    | some err ↦ (err, init_timer ∷ create ∷ [])
    | none ↦ (
      pos 0,
      init_timer
          ∷ create
          ∷ set_scheduler policy priority
          ∷ bind p.core
          ∷ wake
          ∷ start_timer 0 (p.period * 1_000_000 % 2 ^ long_bits)
          ∷ [],
    )
  ]
]

-- `timer_function`: it is restarted each time.
abbrev pub timer_function : (long_bits : ℕ) → Parameters → List Call
timer_function long_bits p = wake ∷ forward_timer 0 (p.period * 1_000_000 % 2 ^ long_bits) ∷ []

-- The loop of `task_fn`; before it the clock is read once.
unfoldable pub read_clocks : ℕ → List Call
read_clocks zero = []
read_clocks (suc n) = read_clock ∷ read_clocks n

unfoldable pub task_fn : Parameters → List Call
task_fn p = read_clock ∷ read_clocks p.num_iter

-- `thread_fn`, for the rounds until `kthread_should_stop`.
unfoldable pub thread_fn : Parameters → (rounds : ℕ) → List Call
thread_fn p zero = []
thread_fn p (suc rounds) =
    (if p.period == 0 then [] else wait ∷ []) ++ (task_fn p ++ thread_fn p rounds)

abbrev pub interfering_exit : List Call
interfering_exit = cancel_timer ∷ stop ∷ []

-- How the program of the same purpose ends, or that it loops for ever with this configuration.
pub data Outcome : Type 0 where
  usage : Outcome
  bad_policy : Outcome
  bad_priority : Outcome
  policy_refused : Outcome
  running : Policy → (priority core period iterations : ℤ) → Outcome

abbrev pub text_eq : List ℕ → List ℕ → Bool
text_eq [] [] = true
text_eq (a ∷ s) (b ∷ t) = if a == b then text_eq s t else false
text_eq _ _ = false

-- The three names that `strcmp` knows: "OTHER", "FIFO" and "RR".
abbrev pub parse_policy : List ℕ → Option Policy
parse_policy s =
    if text_eq s (79 ∷ 84 ∷ 72 ∷ 69 ∷ 82 ∷ [])
    then some normal
    else if text_eq s (70 ∷ 73 ∷ 70 ∷ 79 ∷ [])
    then some fifo
    else if text_eq s (82 ∷ 82 ∷ [])
    then some rr
    else none

-- `a < b` on `int`s
abbrev pub lt_int : ℤ → ℤ → Bool
lt_int (pos a) (pos b) = ltb a b
lt_int (pos a) (negsuc b) = false
lt_int (negsuc a) (pos b) = true
lt_int (negsuc a) (negsuc b) = ltb b a

-- What `main` asks of the C library: `atoi`, the bounds of a policy's priorities, and whether
-- `sched_setscheduler` accepts.
pub record System : Type 0 where
  pub atoi : List ℕ → ℤ
  pub priority_min : Policy → ℤ
  pub priority_max : Policy → ℤ
  pub accepts : Policy → ℤ → Bool

abbrev pub configure : System → Option Policy → (priority core period iterations : List ℕ) → Outcome
configure s none priority core period iterations = bad_policy
configure s (some policy) priority core period iterations =
    let p = s.atoi priority in
    if lt_int p (s.priority_min policy) || lt_int (s.priority_max policy) p
    then bad_priority
    else if s.accepts policy p
    then running policy p (s.atoi core) (s.atoi period) (s.atoi iterations)
    else policy_refused

-- `main`, from the arguments after the program's name. More than five are ignored.
unfoldable pub process_main : System → List (List ℕ) → Outcome
process_main s (policy ∷ priority ∷ core ∷ period ∷ iterations ∷ more) =
    configure s (parse_policy policy) priority core period iterations
process_main s _ = usage
