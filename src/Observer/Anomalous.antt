-- ===== src/Observer/Anomalous.antt =====
-- studio12/anomalous_process.c: the process that the observer is tried on, which forks and ends at random
-- or forks in every round. The results of `rand` and `fork` are arguments.
use cse522s.Base.{ℕ, ◌+◌, ◌%◌, Bool, true, false, List, [], ◌∷◌, leb, if◌then◌else◌, ℤ, pos, negsuc}

pub data Mode : Type 0 where
  random : (fork_rate terminate_rate : ℤ) → Mode
  slow : Mode

-- What `main` makes of the arguments after the program's name; `is_random` is the comparison with
-- "randombranch".
pub data Start : Type 0 where
  usage : Start
  null_argument : Start  -- `strcmp` gets NULL
  runs : (time_period : ℤ) → Mode → Start

unfoldable pub anomalous_start :
    (atoi : List ℕ → ℤ) (is_random : List ℕ → Bool) → List (List ℕ) → Start
anomalous_start atoi is_random [] = null_argument
anomalous_start atoi is_random (mode ∷ args) =
    if is_random mode then random_start args else slow_start args
  where
    random_start : List (List ℕ) → Start
    random_start (period ∷ fork_rate ∷ terminate_rate ∷ []) =
        runs (atoi period) (random (atoi fork_rate) (atoi terminate_rate))
    random_start _ = usage

    slow_start : List (List ℕ) → Start
    slow_start (period ∷ []) = runs (atoi period) slow
    slow_start _ = usage

-- `randomNumber <= rate`
abbrev pub is_within : ℕ → (rate : ℤ) → Bool
is_within n (pos rate) = leb n rate
is_within n (negsuc rate) = false

abbrev pub random_number : (rand : ℕ) → ℕ
random_number rand = rand % 100 + 1

-- What `fork` returns: -1, 0 in the child, or the child's id.
pub data Fork : Type 0 where
  failed : Fork
  in_child : Fork
  in_parent : Fork

abbrev pub terminates : (rand : ℕ) → (terminate_rate : ℤ) → Bool
terminates rand rate = is_within (random_number rand) rate

-- One round: whether the process forks, and whether it ends. A child goes on without the second draw.
abbrev pub round : Mode → (rand rand2 : ℕ) → Fork → Bool × Bool
round slow rand rand2 fork = (true, false)
round (random fork_rate terminate_rate) rand rand2 fork =
    if is_within (random_number rand) fork_rate
    then (true, elim fork [ in_child ↦ false | _ ↦ terminates rand2 terminate_rate ])
    else (false, terminates rand2 terminate_rate)
