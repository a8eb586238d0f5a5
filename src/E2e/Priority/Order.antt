-- ===== src/E2e/Priority/Order.antt =====
-- On one core, the subtask that comes earlier in `sub_ptr` has the higher priority.
use native.Mathlib.Decide.{ℕ_discrete}
use cse522s.Base.{
  ℕ, ◌≤◌, ◌-◌, ◌<◌, ◌≡◌, refl, List, [], ◌∷◌, Option, none, some, arith, length, All, IsDistinct,
}
use cse522s.E2e.{Table, subtask}
use cse522s.E2e.Priority.{State, starts_core, next_priority, prioritize, no_starts}
use cse522s.E2e.Priority.Chain.{chosen, Chain, prioritize-Chain, core-prioritize}

-- Sorted by core, as `comp_rel_ddl` sorts.
abbrev pub IsGrouped : Table → List ℕ → Type 0
IsGrouped t [] = Unit
IsGrouped t (p ∷ ptrs) = All (λ q. (subtask t p).core ≤ (subtask t q).core) ptrs × IsGrouped t ptrs

-- Each subtask outranks those that follow it on its core.
abbrev pub IsRanked : Table → List ℕ → Type 0
IsRanked t [] = Unit
IsRanked t (p ∷ ptrs) =
    All
      (λ q.
        (subtask t q).core ≡ (subtask t p).core → (subtask t q).priority < (subtask t p).priority)
      ptrs
    × IsRanked t ptrs

module _ (t : Table) where
  -- Cores only grow along the list: once past core `c`, no later subtask is on it.
  past :
      (c b r : ℕ) (ptrs : List ℕ)
      → All (λ q. (subtask t r).core ≤ (subtask t q).core) ptrs
      → c < (subtask t r).core
      → All (λ q. (subtask t q).core ≡ c → (subtask t q).priority < b) ptrs
  past c b r [] g lt = tt
  past c b r (q ∷ ptrs) g lt = (λ e. absurd (omega arith), past c b r ptrs g.1 lt)

  -- The subtasks behind `q`, which leaves room for their priorities below its own.
  below :
      (c q b : ℕ) (ptrs : List ℕ)
      → Chain t (some q) ptrs
      → IsGrouped t (q ∷ ptrs)
      → (subtask t q).core ≡ c
      → length ptrs < (subtask t q).priority
      → (subtask t q).priority ≤ 50
      → (subtask t q).priority ≤ b
      → All (λ r. (subtask t r).core ≡ c → (subtask t r).priority < b) ptrs
  unfolding chosen starts_core next_priority
  below c q b [] ch g on room le lb = tt
  below c q b (r ∷ ptrs) ch g on room le lb = elim (ℕ_discrete (subtask t r).core c) [
    | yes e ↦
        let step : (subtask t r).priority ≡ (subtask t q).priority - 1 = ground (arith, ch.0) in
        (λ _. omega arith, below c r b ptrs ch.1 g.1 e (omega arith) (omega arith) (omega arith))
    | no ne ↦ (λ e. absurd (ne e), past c b r ptrs g.1.0 (omega arith))
  ]

  -- The values below the predecessor suffice for the rest of the list.
  abbrev HasRoom : Option ℕ → List ℕ → Type 0
  HasRoom none ptrs = Unit
  HasRoom (some q) ptrs = (length ptrs < (subtask t q).priority) × ((subtask t q).priority ≤ 50)

  room_next :
      (prev : Option ℕ) (p : ℕ) (ptrs : List ℕ)
      → (subtask t p).priority ≡ chosen t prev p
      → length (p ∷ ptrs) ≤ 50
      → HasRoom prev (p ∷ ptrs)
      → (length ptrs < (subtask t p).priority) × ((subtask t p).priority ≤ 50)
  unfolding chosen starts_core next_priority
  room_next none p ptrs e few room = omega arith
  room_next (some q) p ptrs e few room = ground arith

  pub ranked :
      (prev : Option ℕ) (ptrs : List ℕ)
      → Chain t prev ptrs
      → IsGrouped t ptrs
      → length ptrs ≤ 50
      → HasRoom prev ptrs
      → IsRanked t ptrs
  ranked prev [] ch g few room = tt
  ranked prev (p ∷ ptrs) ch g few room =
      let mine = room_next prev p ptrs ch.0 few room in
      (
        below (subtask t p).core p (subtask t p).priority ptrs ch.1 g refl mine.0 mine.1
            (omega arith),
        ranked (some p) ptrs ch.1 g.1 (omega arith) mine,
      )

IsGrouped-core :
    (t u : Table) (ptrs : List ℕ)
    → ((k : ℕ) → (subtask u k).core ≡ (subtask t k).core)
    → IsGrouped t ptrs
    → IsGrouped u ptrs
IsGrouped-core t u [] same g = tt
IsGrouped-core t u (p ∷ ptrs) same g = (go ptrs g.0, IsGrouped-core t u ptrs same g.1)
  where
    go :
        (qs : List ℕ)
        → All (λ q. (subtask t p).core ≤ (subtask t q).core) qs
        → All (λ q. (subtask u p).core ≤ (subtask u q).core) qs
    go [] h = tt
    go (q ∷ qs) h = (omega (arith, same p, same q), go qs h.1)

-- After the priority loop over at most 50 distinct subtasks that are sorted by core, each subtask has
-- a higher priority than every later one on its core.
pub prioritize-IsRanked :
    (t : Table) (sub_ptr : List ℕ)
    → IsDistinct sub_ptr
    → All (λ p. p < length t.subtasks) sub_ptr
    → IsGrouped t sub_ptr
    → length sub_ptr ≤ 50
    → IsRanked
        (prioritize 0 none sub_ptr (record { table = t; start_addr = no_starts })).table
        sub_ptr
prioritize-IsRanked t sub_ptr d lt g few =
    let st : State = record { table = t; start_addr = no_starts } in
    ranked (prioritize 0 none sub_ptr st).table none sub_ptr
      (prioritize-Chain 0 none sub_ptr st d tt lt)
      (IsGrouped-core t (prioritize 0 none sub_ptr st).table sub_ptr
        (λ k. core-prioritize 0 none sub_ptr k st lt) g)
      few tt
