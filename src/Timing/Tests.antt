-- ===== src/Timing/Tests.antt =====
-- A whole run, unloading before the timer fires, and unloading between the waking and the first sleep.
use cse522s.Base.{ℕ, ◌≤◌, ◌≡◌, refl, true, false, List, [], ◌∷◌, Option, none, some, arith, suc}
use cse522s.Timing.{
  State, unloaded, crashed, Actor, module_code, timer_function, child_timer_function, thread_fn,
  initial, act, Reaches,
}
use cse522s.Timing.Stamps.{progress, has_stopped, stamps-ordered}

-- One step where there is one, at the next time.
abbrev step :
    (a : Actor) (s : State)
    → Reaches s
    → (o : Option State) → act a (suc s.now) s ≡ o
    → (u : State) × Reaches u
step a s p none e = (s, p)
step a s p (some u) e = (u, Reaches.after a (suc s.now) p (omega arith) e)

abbrev play : List Actor → (u : State) × Reaches u → (u : State) × Reaches u
play [] at = at
play (a ∷ actors) at = play actors (step a at.0 at.1 (act a (suc at.0.now) at.0) refl)

abbrev m : Actor
m = module_code false

abbrev whole : (s : State) × Reaches s
whole =
    play
      (m ∷ m ∷ m ∷ m ∷ m ∷ m ∷ timer_function ∷ thread_fn ∷ m ∷ thread_fn ∷ child_timer_function
        ∷ thread_fn ∷ m ∷ [])
      (initial, Reaches.here)

whole_unloaded : whole.0.phase ≡ unloaded
unfolding act
whole_unloaded = refl

-- Unloaded before the timer has woken the thread: the child's pointer is NULL.
unloaded_early :
    (play (m ∷ m ∷ m ∷ m ∷ m ∷ m ∷ m ∷ m ∷ []) (initial, Reaches.here)).0.phase ≡ crashed
unfolding act
unloaded_early = refl

-- Stopped between the waking and the first sleep: the thread sleeps on, and unloading waits for it.
abbrev stopped_awake : State
stopped_awake =
    (play (m ∷ m ∷ m ∷ m ∷ m ∷ m ∷ timer_function ∷ m ∷ thread_fn ∷ []) (initial, Reaches.here)).0

waits_for_ever : (t : ℕ) → act m t stopped_awake ≡ none
unfolding act
waits_for_ever t = refl

stamps-ordered_example :
    (whole.0.phase ≡ unloaded
      → (whole.0.stamps 0 ≤ whole.0.stamps 1)
        × (whole.0.stamps 1 ≤ whole.0.stamps 2)
        × (whole.0.stamps 1 ≤ whole.0.stamps 3)
        × (whole.0.stamps 3 ≤ whole.0.stamps 4)
        × (whole.0.stamps 4 ≤ whole.0.stamps 5)
        × (whole.0.stamps 5 ≤ whole.0.stamps 6)
        × (whole.0.stamps 6 ≤ whole.0.stamps 7))
    × (4 ≤ progress whole.0.thread → has_stopped whole.0.phase ≡ true)
stamps-ordered_example = stamps-ordered whole.0 whole.1
