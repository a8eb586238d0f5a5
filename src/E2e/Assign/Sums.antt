-- ===== src/E2e/Assign/Sums.antt =====
-- What one round and the whole loop do to the tables.
use cse522s.Base.{
  ℕ, ◌+◌, ◌≤◌, ◌<◌, ◌≡◌, ◌≢◌, refl, ◌∙◌, true, List, [], ◌∷◌, arith, get_or, length, length-set,
  get_or-set_ne, All, u32,
}
use cse522s.E2e.{subtask, no_subtask}
use cse522s.E2e.Assign.{load, first_fit, State, put, assign_one, assign}

pub first_fit-le : (h w : ℕ) (agg : List ℕ) → first_fit h w agg ≤ length agg
unfolding first_fit
first_fit-le h w [] = omega arith
first_fit-le h w (a ∷ agg) = ground (arith, first_fit-le h w agg)

pub first_fit-fits :
    (h w : ℕ) (agg : List ℕ)
    → first_fit h w agg < length agg
    → u32 (get_or agg (first_fit h w agg) 0 + w) ≤ h
unfolding first_fit
first_fit-fits h w [] l = absurd (omega arith)
first_fit-fits h w (a ∷ agg) l = ground (arith, first_fit-fits h w agg)

module _ (h : ℕ) where
  pub tasks-assign_one : (i : ℕ) (st : State) → (assign_one h i st).table.tasks ≡ st.table.tasks
  unfolding assign_one put
  tasks-assign_one i st = ground arith

  pub length-assign_one :
      (i : ℕ) (st : State) → length (assign_one h i st).table.subtasks ≡ length st.table.subtasks
  unfolding assign_one put
  length-assign_one i st = ground (
    arith,
    length-set st.table.subtasks i (record (subtask st.table i) { core = 0 }),
    length-set st.table.subtasks i (record (subtask st.table i) {
      core = first_fit h (load st.table h (subtask st.table i)) st.agg_time;
    }),
  )

  -- A round leaves every other subtask alone.
  pub assign_one-frame :
      (i k : ℕ) (st : State) → i ≢ k → subtask (assign_one h i st).table k ≡ subtask st.table k
  unfolding assign_one put
  assign_one-frame i k st ne = ground (
    arith,
    get_or-set_ne st.table.subtasks i k (record (subtask st.table i) { core = 0 }) no_subtask ne,
    get_or-set_ne st.table.subtasks i k
        (record (subtask st.table i) {
          core = first_fit h (load st.table h (subtask st.table i)) st.agg_time;
        })
        no_subtask ne,
  )

  pub assign-frame :
      (ptrs : List ℕ) (k : ℕ) (st : State)
      → All (λ i. i ≢ k) ptrs
      → subtask (assign h ptrs st).table k ≡ subtask st.table k
  unfolding assign
  assign-frame [] k st ne = refl
  assign-frame (i ∷ ptrs) k st ne =
      assign-frame ptrs k (assign_one h i st) ne.1 ∙ assign_one-frame i k st ne.0

  -- Once a subtask has found no core, the case stays invalid.
  pub invalid-assign :
      (ptrs : List ℕ) (st : State) → st.invalid ≡ true → (assign h ptrs st).invalid ≡ true
  unfolding assign assign_one put
  invalid-assign [] st e = e
  invalid-assign (i ∷ ptrs) st e = ground (arith, invalid-assign ptrs (assign_one h i st))
