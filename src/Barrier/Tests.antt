-- ===== src/Barrier/Tests.antt =====
-- A run of the four threads, one after the other, and the sort at unloading.
use cse522s.Base.{ℕ, suc, ◌≡◌, refl, true, List, [], ◌∷◌, Option, none, some, arith, All, get_elem?}
use cse522s.Barrier.{Thread, State, initial, thread_at, Reaches, exit_array}
use cse522s.Barrier.Safety.{has_arrived, barrier-safe}

abbrev move :
    (i : ℕ) (s : State)
    → Reaches s
    → (pc : Option Thread) → get_elem? s.threads i ≡ pc
    → (u : State) × Reaches u
move i s p none at = (s, p)
move i s p (some pc) at = moved (thread_at i (suc s.now) pc s) refl
  where
    moved : (o : Option State) → thread_at i (suc s.now) pc s ≡ o → (u : State) × Reaches u
    moved none e = (s, p)
    moved (some u) e = (u, Reaches.after i (suc s.now) pc p (omega arith) at e)

abbrev play : List ℕ → (u : State) × Reaches u → (u : State) × Reaches u
play [] at = at
play (i ∷ turns) at = play turns (move i at.0 at.1 (get_elem? at.0.threads i) refl)

abbrev through : (s : State) × Reaches s
through = play (0 ∷ 0 ∷ 0 ∷ 0 ∷ 1 ∷ 1 ∷ 1 ∷ 2 ∷ 2 ∷ 2 ∷ 3 ∷ 3 ∷ 3 ∷ 0 ∷ []) (initial, Reaches.here)

barrier-safe_example : All (λ pc. has_arrived pc ≡ true) through.0.threads
barrier-safe_example = barrier-safe through.0 0 through.1 refl

-- The stamps behind the first come out as 1, 2, 4, 3.
unsorted : exit_array (0 ∷ 2 ∷ 0 ∷ 1 ∷ 0 ∷ 3 ∷ 0 ∷ 4 ∷ []) ≡ 0 ∷ 1 ∷ 2 ∷ 4 ∷ 3 ∷ []
unfolding exit_array
unsorted = refl
