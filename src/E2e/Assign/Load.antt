-- ===== src/E2e/Assign/Load.antt =====
-- The load that the first-fit loop puts on each core.
use cse522s.Base.{
  ℕ, zero, suc, ◌+◌, ◌≤◌, ◌<◌, ◌≡◌, refl, ◌∙◌, inl, inr, false, List, [], ◌∷◌, arith, get_or,
  length, All, IsDistinct, Bool-cases,
}
use cse522s.E2e.{core_num, Table, subtask}
use cse522s.E2e.Assign.{load, State, assign_one, assign, core_load, start}
use cse522s.E2e.Assign.Sums.{length-assign_one, assign-frame, invalid-assign}
use cse522s.E2e.Assign.Bounds.{Fits, load-assign_one, assign_one-sum, length-agg}

module _ (h : ℕ) where
  Fits-assign_one :
      (i : ℕ) (st : State) (ptrs : List ℕ)
      → i < length st.table.subtasks
      → length st.agg_time ≡ core_num
      → All (Fits h st.table) ptrs
      → All (Fits h (assign_one h i st).table) ptrs
  Fits-assign_one i st [] lt len fits = tt
  Fits-assign_one i st (k ∷ ptrs) lt len fits = (
    omega (arith, load-assign_one h i k st lt len, fits.0),
    Fits-assign_one i st ptrs lt len fits.1,
  )

  round_was_valid :
      (i : ℕ) (ptrs : List ℕ) (st : State)
      → (assign h ptrs (assign_one h i st)).invalid ≡ false
      → (assign_one h i st).invalid ≡ false
  round_was_valid i ptrs st ok = elim (Bool-cases (assign_one h i st).invalid) [
    | inl bad ↦ cc (invalid-assign h ptrs (assign_one h i st) bad)
    | inr good ↦ good
  ]

  load-assign :
      (ptrs : List ℕ) (k : ℕ) (st : State)
      → All (λ i. i < length st.table.subtasks) ptrs
      → length st.agg_time ≡ core_num
      → load (assign h ptrs st).table h (subtask (assign h ptrs st).table k)
        ≡ load st.table h (subtask st.table k)
  unfolding assign
  load-assign [] k st lt len = refl
  load-assign (i ∷ ptrs) k st lt len =
      load-assign ptrs k (assign_one h i st) (rw (length-assign_one h i st) lt.1)
        (length-agg h i st ∙ len)
      ∙ load-assign_one h i k st lt.0 len

  assign-sum :
      (ptrs : List ℕ) (j : ℕ) (st : State)
      → IsDistinct ptrs
      → All (λ i. i < length st.table.subtasks) ptrs
      → All (Fits h st.table) ptrs
      → length st.agg_time ≡ core_num
      → (assign h ptrs st).invalid ≡ false
      → get_or st.agg_time j 0 ≤ h
      → (get_or (assign h ptrs st).agg_time j 0 ≤ h)
        × (get_or (assign h ptrs st).agg_time j 0
            ≡ get_or st.agg_time j 0 + core_load (assign h ptrs st).table h j ptrs)
  unfolding assign core_load
  assign-sum [] j st d lt fits len ok below = omega arith
  assign-sum (i ∷ ptrs) j st d lt fits len ok below =
      let one = assign_one-sum h i j st lt.0 len fits.0 (round_was_valid i ptrs st ok) below in
      let rest =
        assign-sum ptrs j (assign_one h i st) d.1 (rw (length-assign_one h i st) lt.1)
          (Fits-assign_one i st ptrs lt.0 len fits.1) (length-agg h i st ∙ len) ok one.0 in
      (
        rest.0,
        ground (
          arith,
          rest.1,
          one.1,
          assign-frame h ptrs i (assign_one h i st) d.0,
          load-assign (i ∷ ptrs) i st lt len,
        ),
      )

-- In a case that stays valid, the loads of the subtasks on each core sum up to the core's `agg_time`,
-- and that is at most `hyper_period`. The pointers are distinct and in range, and no sum of
-- `hyper_period` and one load leaves 32 bits.
pub core_load-le :
    (t : Table) (h j : ℕ) (ptrs : List ℕ)
    → IsDistinct ptrs
    → All (λ i. i < length t.subtasks) ptrs
    → All (Fits h t) ptrs
    → j < core_num
    → (assign h ptrs (start t)).invalid ≡ false
    → (core_load (assign h ptrs (start t)).table h j ptrs ≤ h)
      × (get_or (assign h ptrs (start t)).agg_time j 0
          ≡ core_load (assign h ptrs (start t)).table h j ptrs)
core_load-le t h j ptrs d lt fits jl ok =
    let sums = assign-sum h ptrs j (start t) d lt fits refl ok (idle j jl) in
    omega (arith, sums.0, sums.1, idle j jl, none j jl)
  where
    none : (j : ℕ) → j < core_num → get_or (start t).agg_time j 0 ≡ 0
    none zero l = refl
    none (suc zero) l = refl
    none (suc (suc zero)) l = refl
    none (suc (suc (suc j))) l = refl

    idle : (j : ℕ) → j < core_num → get_or (start t).agg_time j 0 ≤ h
    idle j l = omega (arith, none j l)
