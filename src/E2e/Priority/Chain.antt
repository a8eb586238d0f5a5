-- ===== src/E2e/Priority/Chain.antt =====
-- What the loop leaves behind: neighbours on one core differ by one, and each core starts at 50.
use native.Mathlib.Decide.{ℕ_discrete}
use cse522s.Base.{
  ℕ, suc, ◌<◌, ◌≡◌, ◌≢◌, refl, sym, ◌∙◌, ap, List, [], ◌∷◌, Option, none, some, arith,
  if◌then◌else◌, get_or, set, length, length-set, get_or-set_self, get_or-set_ne, All, IsDistinct,
}
use cse522s.E2e.{Table, subtask, no_subtask}
use cse522s.E2e.Priority.{State, starts_core, next_priority, prioritize_one, prioritize}

-- The value that a round writes.
unfoldable pub chosen : Table → Option ℕ → ℕ → ℕ
chosen t prev p = if starts_core t prev p then 50 else next_priority t prev

-- Along `ptrs`, each priority is the one chosen from its predecessor.
abbrev pub Chain : Table → Option ℕ → List ℕ → Type 0
Chain t prev [] = Unit
Chain t prev (p ∷ ptrs) = ((subtask t p).priority ≡ chosen t prev p) × Chain t (some p) ptrs

subtasks-one :
    (i : ℕ) (prev : Option ℕ) (p : ℕ) (st : State)
    → (prioritize_one i prev p st).table.subtasks
      ≡ set st.table.subtasks p (record (subtask st.table p) { priority = chosen st.table prev p })
unfolding prioritize_one chosen
subtasks-one i prev p st = ground arith

one_self :
    (i : ℕ) (prev : Option ℕ) (p : ℕ) (st : State)
    → p < length st.table.subtasks
    → subtask (prioritize_one i prev p st).table p
      ≡ record (subtask st.table p) { priority = chosen st.table prev p }
one_self i prev p st lt =
    ap (λ l. get_or l p no_subtask) (subtasks-one i prev p st)
    ∙ get_or-set_self st.table.subtasks p _ no_subtask lt

one_ne :
    (i : ℕ) (prev : Option ℕ) (p k : ℕ) (st : State)
    → p ≢ k
    → subtask (prioritize_one i prev p st).table k ≡ subtask st.table k
one_ne i prev p k st ne =
    ap (λ l. get_or l k no_subtask) (subtasks-one i prev p st)
    ∙ get_or-set_ne st.table.subtasks p k _ no_subtask ne

-- The loop leaves subtasks that it does not point to alone.
pub prioritize-frame :
    (i : ℕ) (prev : Option ℕ) (ptrs : List ℕ) (k : ℕ) (st : State)
    → All (λ p. p ≢ k) ptrs
    → subtask (prioritize i prev ptrs st).table k ≡ subtask st.table k
unfolding prioritize
prioritize-frame i prev [] k st ne = refl
prioritize-frame i prev (p ∷ ptrs) k st ne =
    prioritize-frame (suc i) (some p) ptrs k (prioritize_one i prev p st) ne.1
    ∙ one_ne i prev p k st ne.0

pub length-one :
    (i : ℕ) (prev : Option ℕ) (p : ℕ) (st : State)
    → length (prioritize_one i prev p st).table.subtasks ≡ length st.table.subtasks
length-one i prev p st = ap length (subtasks-one i prev p st) ∙ length-set st.table.subtasks p _

-- No round moves a subtask to another core.
pub core-one :
    (i : ℕ) (prev : Option ℕ) (p k : ℕ) (st : State)
    → p < length st.table.subtasks
    → (subtask (prioritize_one i prev p st).table k).core ≡ (subtask st.table k).core
core-one i prev p k st lt = elim (ℕ_discrete p k) [
  | yes e ↦ rw (← e) (ap (λ s. s.core) (one_self i prev p st lt))
  | no ne ↦ ap (λ s. s.core) (one_ne i prev p k st ne)
]

abbrev InRange : State → List ℕ → Type 0
InRange st = All (λ p. p < length st.table.subtasks)

InRange-one :
    (i : ℕ) (prev : Option ℕ) (p : ℕ) (st : State) (ptrs : List ℕ)
    → InRange st ptrs
    → InRange (prioritize_one i prev p st) ptrs
InRange-one i prev p st ptrs h = rw (length-one i prev p st) h

pub core-prioritize :
    (i : ℕ) (prev : Option ℕ) (ptrs : List ℕ) (k : ℕ) (st : State)
    → InRange st ptrs
    → (subtask (prioritize i prev ptrs st).table k).core ≡ (subtask st.table k).core
unfolding prioritize
core-prioritize i prev [] k st lt = refl
core-prioritize i prev (p ∷ ptrs) k st lt =
    core-prioritize (suc i) (some p) ptrs k (prioritize_one i prev p st)
      (InRange-one i prev p st ptrs lt.1)
    ∙ core-one i prev p k st lt.0

-- The predecessor is not among the pointers that follow.
abbrev Apart : Option ℕ → List ℕ → Type 0
Apart none ptrs = Unit
Apart (some q) ptrs = All (λ p. p ≢ q) ptrs

chosen-prioritize :
    (i : ℕ) (prev : Option ℕ) (p : ℕ) (ptrs : List ℕ) (st : State)
    → InRange st ptrs
    → Apart prev ptrs
    → chosen (prioritize i prev ptrs st).table prev p ≡ chosen st.table prev p
unfolding chosen starts_core next_priority
chosen-prioritize i none p ptrs st lt ap = refl
chosen-prioritize i (some q) p ptrs st lt ap =
    ground
      (arith, core-prioritize i (some q) ptrs p st lt, prioritize-frame i (some q) ptrs q st ap)

pub prioritize-Chain :
    (i : ℕ) (prev : Option ℕ) (ptrs : List ℕ) (st : State)
    → IsDistinct ptrs
    → Apart prev ptrs
    → InRange st ptrs
    → Chain (prioritize i prev ptrs st).table prev ptrs
unfolding prioritize
prioritize-Chain i prev [] st d apart lt = tt
prioritize-Chain i prev (p ∷ ptrs) st d apart lt = (
  ap (λ s. s.priority)
        (prioritize-frame (suc i) (some p) ptrs p (prioritize_one i prev p st) d.0
          ∙ one_self i prev p st lt.0)
      ∙ sym (chosen-prioritize i prev p (p ∷ ptrs) st lt apart),
  prioritize-Chain (suc i) (some p) ptrs (prioritize_one i prev p st) d.1 d.0
      (InRange-one i prev p st ptrs lt.1),
)
