-- ===== src/SharedMemory/Tests.antt =====
-- The two processes, run on given schedules.
use cse522s.Base.{
  ℕ, ◌*◌, ◌<◌, ◌≡◌, refl, Bool, true, false, List, [], ◌∷◌, ◌++◌, replicate, Option, none, some,
  arith,
}
use cse522s.SharedMemory.{State, Reaches, shared_mem_size, fresh, leader_step, follower_step}
use cse522s.SharedMemory.Safety.{
  has_notified, is_destroyed, is_reading, has_left, array-values, reading-excludes,
}
use cse522s.SharedMemory.Progress.{Stuck, Stuck-cases, initialised, completes}

abbrev values : ℕ → ℕ
values i = i * i

-- One step where there is one; a process that waits or has ended is passed over.
abbrev lead :
    {s : State} (t : State)
    → Reaches values s t
    → (o : Option State) → leader_step values t ≡ o
    → (u : State) × Reaches values s u
lead t p none e = (t, p)
lead t p (some u) e = (u, Reaches.by_leader p e)

abbrev follow :
    {s : State} (t : State)
    → Reaches values s t
    → (o : Option State) → follower_step t ≡ o
    → (u : State) × Reaches values s u
follow t p none e = (t, p)
follow t p (some u) e = (u, Reaches.by_follower p e)

-- Which process moves: `true` is the leader.
abbrev play :
    (moves : List Bool) {s : State}
    → (u : State) × Reaches values s u
    → (u : State) × Reaches values s u
play [] at = at
play (true ∷ moves) at = play moves (lead at.0 at.1 (leader_step values at.0) refl)
play (false ∷ moves) at = play moves (follow at.0 at.1 (follower_step at.0) refl)

-- The follower announces itself, the leader writes, and the follower reads.
abbrev proper : (s : State) × Reaches values initialised s
proper =
    play (false ∷ (replicate 13 true ++ (replicate 14 false ++ true ∷ [])))
      (initialised, Reaches.here)

-- The announcement falls between the check and the initialisation.
abbrev early : (s : State) × Reaches values fresh s
early = play (true ∷ false ∷ true ∷ true ∷ true ∷ []) (fresh, Reaches.here)

-- The same from the start.
abbrev whole : (s : State) × Reaches values fresh s
whole =
    play (replicate 4 true ++ (false ∷ (replicate 13 true ++ (replicate 14 false ++ true ∷ []))))
      (fresh, Reaches.here)

early_waits : leader_step values early.0 ≡ none
unfolding leader_step follower_step
early_waits = refl

array-values_example : whole.0.array 3 ≡ 9
unfolding leader_step follower_step
array-values_example = array-values values (whole.0) (whole.1) 3 (omega arith)

completes_example :
    (is_destroyed proper.0.leader ≡ true)
    × ((has_left proper.0.follower ≡ true)
        × ((i : ℕ) → i < shared_mem_size → proper.0.array i ≡ values i))
unfolding leader_step follower_step
completes_example = completes values proper.0 proper.1 refl refl

Stuck-cases_example : Stuck values early.0
unfolding leader_step follower_step
Stuck-cases_example = Stuck-cases values early.0 early.1 refl refl

reading-excludes_example :
    (is_reading whole.0.follower ≡ true → has_notified whole.0.leader ≡ true)
    × (is_destroyed whole.0.leader ≡ true → has_left whole.0.follower ≡ true)
reading-excludes_example = reading-excludes values whole.0 whole.1
