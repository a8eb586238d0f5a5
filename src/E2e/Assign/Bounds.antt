-- ===== src/E2e/Assign/Bounds.antt =====
-- The result of the first-fit loop: every subtask has a core, and no core is overloaded.
use cse522s.Base.{
  ℕ, ◌+◌, ◌^◌, ◌≤◌, ◌<◌, ◌≡◌, ◌≢◌, refl, ◌∙◌, ap, inl, inr, false, List, [], ◌∷◌, arith, ◌==◌,
  if◌then◌else◌, get_or, length, length-set, get_or-set_self, get_or-set_ne, All, IsDistinct,
  Bool-cases, u32,
}
use native.Mathlib.Decide.{ℕ_discrete}
use cse522s.E2e.{core_num, Table, subtask, no_subtask}
use cse522s.E2e.Assign.{load, first_fit, State, put, assign_one, assign}
use cse522s.E2e.Assign.Sums.{
  first_fit-le, first_fit-fits, tasks-assign_one, length-assign_one, assign_one-frame, assign-frame,
}

module _ (h : ℕ) where
  -- What a round writes into its own subtask.
  assign_one-core :
      (i : ℕ) (st : State)
      → i < length st.table.subtasks
      → length st.agg_time ≡ core_num
      → (c : ℕ) × (c < core_num)
        × (subtask (assign_one h i st).table i ≡ record (subtask st.table i) { core = c })
  unfolding assign_one put
  assign_one-core i st lt len =
      elim (Bool-cases
        (first_fit h (load st.table h (subtask st.table i)) st.agg_time == core_num)) [
          | inl full ↦ (
            0,
            omega arith,
            rw full (
                get_or-set_self st.table.subtasks i (record (subtask st.table i) { core = 0 })
                  no_subtask lt),
          )
          | inr fits ↦ (
            first_fit h (load st.table h (subtask st.table i)) st.agg_time,
            ground (arith, first_fit-le h (load st.table h (subtask st.table i)) st.agg_time),
            rw fits (
                get_or-set_self st.table.subtasks i
                  (record (subtask st.table i) {
                    core = first_fit h (load st.table h (subtask st.table i)) st.agg_time;
                  })
                  no_subtask lt),
          )
        ]

  pub length-agg : (i : ℕ) (st : State) → length (assign_one h i st).agg_time ≡ length st.agg_time
  unfolding assign_one put
  length-agg i st =
      elim (Bool-cases
        (first_fit h (load st.table h (subtask st.table i)) st.agg_time == core_num)) [
          | inl full ↦ rw full (length-set st.agg_time 0 h)
          | inr fits ↦ rw fits (length-set st.agg_time _ _)
        ]

  one-core :
      (i : ℕ) (st : State)
      → i < length st.table.subtasks
      → length st.agg_time ≡ core_num
      → (subtask (assign_one h i st).table i).core < core_num
  one-core i st lt len = let (c, small, e) = assign_one-core i st lt len in rw e small

  -- With distinct pointers into the table, `put` and its fallback give every subtask a core.
  pub assign-core :
      (ptrs : List ℕ) (st : State)
      → IsDistinct ptrs
      → All (λ i. i < length st.table.subtasks) ptrs
      → length st.agg_time ≡ core_num
      → All (λ i. (subtask (assign h ptrs st).table i).core < core_num) ptrs
  unfolding assign
  assign-core [] st d lt len = tt
  assign-core (i ∷ ptrs) st d lt len = (
    rw (assign-frame h ptrs i (assign_one h i st) d.0) (one-core i st lt.0 len),
    assign-core ptrs (assign_one h i st) d.1 (rw (length-assign_one h i st) lt.1)
        (length-agg i st ∙ len),
  )

  -- The load of a subtask as it is before the loop, and the limit under which the sums do not wrap.
  abbrev pub Fits : Table → ℕ → Type 0
  Fits t i = h + load t h (subtask t i) < 2 ^ 32

  -- With a core found, `put` adds the load there and nowhere else.
  put-sum :
      (i p j : ℕ) (st : State)
      → p < length st.agg_time
      → i < length st.table.subtasks
      → p ≢ core_num
      → u32 (get_or st.agg_time p 0 + load st.table h (subtask st.table i)) ≤ h
      → Fits st.table i
      → get_or st.agg_time j 0 ≤ h
      → (get_or (put h i p st).agg_time j 0 ≤ h)
        × (get_or (put h i p st).agg_time j 0
            ≡ get_or st.agg_time j 0 + (if p == j then load st.table h (subtask st.table i) else 0))
  unfolding put
  put-sum i p j st pl lt np room fits below = elim (ℕ_discrete p j) [
    | yes e ↦ ground (
      arith,
      ap (λ c. get_or st.agg_time c 0) e,
      get_or-set_self st.agg_time j
          (u32 (get_or st.agg_time j 0 + load st.table h (subtask st.table i))) 0,
    )
    | no e ↦ ground (
      arith,
      get_or-set_ne st.agg_time p j
          (u32 (get_or st.agg_time p 0 + load st.table h (subtask st.table i))) 0 e,
    )
  ]

  put-core :
      (i p : ℕ) (st : State)
      → i < length st.table.subtasks
      → p ≢ core_num
      → (subtask (put h i p st).table i).core ≡ p
  unfolding put
  put-core i p st lt np = ground (
    arith,
    get_or-set_self st.table.subtasks i (record (subtask st.table i) { core = p }) no_subtask lt,
  )

  put-invalid : (i p : ℕ) (st : State) → (put h i p st).invalid ≡ false → p ≢ core_num
  unfolding put
  put-invalid i p st ok e = ground arith

  -- A round that finds a core adds the load there and nowhere else, within `hyper_period`.
  pub assign_one-sum :
      (i j : ℕ) (st : State)
      → i < length st.table.subtasks
      → length st.agg_time ≡ core_num
      → Fits st.table i
      → (assign_one h i st).invalid ≡ false
      → get_or st.agg_time j 0 ≤ h
      → (get_or (assign_one h i st).agg_time j 0 ≤ h)
        × (get_or (assign_one h i st).agg_time j 0
            ≡ get_or st.agg_time j 0
              + (if (subtask (assign_one h i st).table i).core == j
                  then load st.table h (subtask st.table i)
                  else 0))
  unfolding assign_one
  assign_one-sum i j st lt len fits ok below =
      let w = load st.table h (subtask st.table i) in
      let p = first_fit h w st.agg_time in
      let np : p ≢ core_num = put-invalid i p st ok in
      let pl : p < length st.agg_time = omega (arith, first_fit-le h w st.agg_time) in
      rw (put-core i p st lt np)
        (put-sum i p j st pl lt np (first_fit-fits h w st.agg_time pl) fits below)

  -- The loop changes no load.
  pub load-assign_one :
      (i k : ℕ) (st : State)
      → i < length st.table.subtasks
      → length st.agg_time ≡ core_num
      → load (assign_one h i st).table h (subtask (assign_one h i st).table k)
        ≡ load st.table h (subtask st.table k)
  unfolding load
  load-assign_one i k st lt len = ground (
    arith,
    tasks-assign_one h i st,
    assign_one-frame h i k st,
    (assign_one-core i st lt len).2,
    ℕ_discrete i k,
  )

  -- The loop changes nothing of a subtask but its core.
  pub assign-keeps :
      (ptrs : List ℕ) (k : ℕ) (st : State)
      → All (λ i. i < length st.table.subtasks) ptrs
      → length st.agg_time ≡ core_num
      → (c : ℕ) × (subtask (assign h ptrs st).table k ≡ record (subtask st.table k) { core = c })
  unfolding assign
  assign-keeps [] k st lt len = ((subtask st.table k).core, refl)
  assign-keeps (i ∷ ptrs) k st lt len =
      let (c, e) =
        assign-keeps ptrs k (assign_one h i st) (rw (length-assign_one h i st) lt.1)
          (length-agg i st ∙ len) in
      (
        c,
        ground (
          arith,
          e,
          ℕ_discrete i k,
          assign_one-frame h i k st,
          (assign_one-core i st lt.0 len).2,
        ),
      )

  pub tasks-assign : (ptrs : List ℕ) (st : State) → (assign h ptrs st).table.tasks ≡ st.table.tasks
  unfolding assign
  tasks-assign [] st = refl
  tasks-assign (i ∷ ptrs) st = tasks-assign ptrs (assign_one h i st) ∙ tasks-assign_one h i st

  pub length-assign :
      (ptrs : List ℕ) (st : State)
      → length (assign h ptrs st).table.subtasks ≡ length st.table.subtasks
  unfolding assign
  length-assign [] st = refl
  length-assign (i ∷ ptrs) st = length-assign ptrs (assign_one h i st) ∙ length-assign_one h i st
