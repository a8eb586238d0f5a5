-- ===== src/E2e/Priority/Starts.antt =====
-- Each core's start pointer leads to exactly the subtasks of that core.
use mathlib.Core.Path.{subst}
use native.Mathlib.Decide.{ℕ_discrete, dec_lt}
use cse522s.Base.{
  ℕ, zero, suc, ◌+◌, ◌-◌, ◌≤◌, ◌<◌, ◌≡◌, ◌≢◌, refl, ◌∙◌, ap, sym, true, List, [], ◌∷◌, Option, none,
  some, arith, ◌&&◌, ◌==◌, if◌then◌else◌, get_or, length, length-set, drop, get_or-set_self,
  get_or-set_ne, All,
}
use cse522s.E2e.{core_num, Table, subtask}
use cse522s.E2e.Calibrate.{core_at}
use cse522s.E2e.Priority.{State, starts_core, prioritize_one, prioritize, fill_starts, no_starts}
use cse522s.E2e.Priority.Chain.{core-one, length-one}
use cse522s.E2e.Priority.Order.{IsGrouped}

-- The pointers to subtasks on core `c`.
unfoldable pub filter_core : Table → ℕ → List ℕ → List ℕ
filter_core t c [] = []
filter_core t c (p ∷ ptrs) =
    if (subtask t p).core == c then p ∷ filter_core t c ptrs else filter_core t c ptrs

-- The pointers up to the first that is not on core `c`: what a walk visits.
unfoldable pub walk_core : Table → ℕ → List ℕ → List ℕ
walk_core t c [] = []
walk_core t c (p ∷ ptrs) = if (subtask t p).core == c then p ∷ walk_core t c ptrs else []

-- The subtasks that a calibration thread visits from its start pointer on: it takes its core from
-- that pointer, and ends at once where that is the sentinel.
unfoldable pub thread_walk : Table → List ℕ → List ℕ
thread_walk t ptrs =
    let core = core_at t ptrs in if core == core_num then [] else walk_core t core ptrs

drop_same : (k i : ℕ) (xs : List ℕ) → k ≡ i → drop (k - i) xs ≡ xs
drop_same k i xs e = let z : k - i ≡ 0 = omega arith in rw z

drop_later : (k i x : ℕ) (xs : List ℕ) → suc i ≤ k → drop (k - i) (x ∷ xs) ≡ drop (k - suc i) xs
drop_later k i x xs h = let z : k - i ≡ suc (k - suc i) = omega arith in rw z

drop-length : (xs : List ℕ) → drop (length xs) xs ≡ []
drop-length [] = refl
drop-length (x ∷ xs) = drop-length xs

drop_past : (k i : ℕ) (xs : List ℕ) → k ≡ i + length xs → drop (k - i) xs ≡ []
drop_past k i xs e = let z : k - i ≡ length xs = omega arith in rw z (drop-length xs)

filled : ℕ → Option ℕ → ℕ
filled tot none = tot
filled tot (some k) = k

fill_starts-filled :
    (tot c : ℕ) (starts : List (Option ℕ))
    → c < length starts
    → get_or (fill_starts tot starts) c 0 ≡ filled tot (get_or starts c none)
unfolding fill_starts filled
fill_starts-filled tot c [] lt = absurd (omega arith)
fill_starts-filled tot zero (none ∷ starts) lt = refl
fill_starts-filled tot zero (some k ∷ starts) lt = refl
fill_starts-filled tot (suc c) (none ∷ starts) lt = fill_starts-filled tot c starts (omega arith)
fill_starts-filled tot (suc c) (some k ∷ starts) lt = fill_starts-filled tot c starts (omega arith)

module _ (t : Table) (c : ℕ) where
  filter-past :
      (r : ℕ) (ptrs : List ℕ)
      → All (λ q. (subtask t r).core ≤ (subtask t q).core) ptrs
      → c < (subtask t r).core
      → filter_core t c ptrs ≡ []
  unfolding filter_core
  filter-past r [] g lt = refl
  filter-past r (q ∷ ptrs) g lt = ground (arith, filter-past r ptrs g.1 lt)

  -- From the first pointer on core `c`, the walk meets them all.
  walk-eq-filter :
      (p : ℕ) (ptrs : List ℕ)
      → IsGrouped t (p ∷ ptrs)
      → (subtask t p).core ≡ c
      → walk_core t c ptrs ≡ filter_core t c ptrs
  unfolding walk_core filter_core
  walk-eq-filter p [] g e = refl
  walk-eq-filter p (q ∷ ptrs) g e = elim (ℕ_discrete (subtask t q).core c) [
    | yes on ↦ ground (arith, walk-eq-filter q ptrs g.1 on)
    | no off ↦ ground (arith, filter-past q ptrs g.1.0 (omega arith))
  ]

  -- The cores in the loop's table are those of `t`.
  abbrev Same : State → Type 0
  Same st = (k : ℕ) → (subtask st.table k).core ≡ (subtask t k).core

  abbrev Ready : State → List ℕ → Type 0
  Ready st ptrs = All (λ p. p < length st.table.subtasks) ptrs

  length-starts :
      (i : ℕ) (prev : Option ℕ) (p : ℕ) (st : State)
      → length (prioritize_one i prev p st).start_addr ≡ length st.start_addr
  unfolding prioritize_one
  length-starts i prev p st =
      ground (arith, length-set st.start_addr (subtask st.table p).core (some i))

  -- What round `i` does to the start of core `c`.
  start-one :
      (i : ℕ) (prev : Option ℕ) (p : ℕ) (st : State)
      → c < length st.start_addr
      → get_or (prioritize_one i prev p st).start_addr c none ≡ (
          if starts_core st.table prev p && ((subtask st.table p).core == c)
          then some i
          else get_or st.start_addr c none)
  unfolding prioritize_one
  start-one i prev p st lt = elim (ℕ_discrete (subtask st.table p).core c) [
    | yes e ↦ ground (arith, e, get_or-set_self st.start_addr c (some i) none lt)
    | no ne ↦
        ground (arith, get_or-set_ne st.start_addr (subtask st.table p).core c (some i) none ne)
  ]

  Same-one :
      (i : ℕ) (prev : Option ℕ) (p : ℕ) (st : State)
      → p < length st.table.subtasks
      → Same st
      → Same (prioritize_one i prev p st)
  Same-one i prev p st lt same k = core-one i prev p k st lt ∙ same k

  Ready-one :
      (i : ℕ) (prev : Option ℕ) (p : ℕ) (st : State) (ptrs : List ℕ)
      → Ready st ptrs
      → Ready (prioritize_one i prev p st) ptrs
  Ready-one i prev p st ptrs h = rw (length-one i prev p st) h

  -- Behind a subtask on core `c` or a later core, the start of `c` does not change.
  kept :
      (i q : ℕ) (ptrs : List ℕ) (st : State)
      → Same st
      → Ready st ptrs
      → c < length st.start_addr
      → IsGrouped t (q ∷ ptrs)
      → c ≤ (subtask t q).core
      → get_or (prioritize i (some q) ptrs st).start_addr c none ≡ get_or st.start_addr c none
  unfolding prioritize starts_core
  kept i q [] st same ready lt g le = refl
  kept i q (p ∷ ptrs) st same ready lt g le =
      kept (suc i) p ptrs (prioritize_one i (some q) p st) (Same-one i (some q) p st ready.0 same)
        (Ready-one i (some q) p st ptrs ready.1) (omega (arith, length-starts i (some q) p st)) g.1
        (omega arith)
      ∙ ground (arith, start-one i (some q) p st lt, same p, same q)

  -- No subtask before the list is on core `c` or a later one.
  abbrev Before : Option ℕ → Type 0
  Before none = Unit
  Before (some q) = (subtask t q).core < c

  starts_core-Before :
      (st : State) (prev : Option ℕ) (p : ℕ)
      → Same st
      → Before prev
      → (subtask t p).core ≡ c
      → starts_core st.table prev p ≡ true
  unfolding starts_core
  starts_core-Before st none p same b e = refl
  starts_core-Before st (some q) p same b e = ground (arith, same p, same q)

  -- A start pointer for core `c` is one to a subtask on it, or to the sentinel.
  abbrev Heads : List ℕ → Type 0
  Heads [] = Unit
  Heads (p ∷ ptrs) = (subtask t p).core ≡ c

  abbrev Met : List ℕ → List ℕ → Type 0
  Met ptrs from = (walk_core t c from ≡ filter_core t c ptrs) × Heads from

  drop-nil : (n : ℕ) → Met [] (drop n [])
  unfolding walk_core filter_core
  drop-nil zero = (refl, tt)
  drop-nil (suc n) = (refl, tt)

  -- The thread walks along the subtasks of core `c`.
  thread_walk-Heads :
      (from : List ℕ) → c < core_num → Heads from → thread_walk t from ≡ walk_core t c from
  unfolding thread_walk core_at walk_core
  thread_walk-Heads [] small h = refl
  thread_walk-Heads (p ∷ ptrs) small h = ground (arith, h)

  -- The position that the loop finds for core `c`.
  abbrev found : ℕ → Option ℕ → List ℕ → State → ℕ
  found i prev ptrs st =
      filled (i + length ptrs) (get_or (prioritize i prev ptrs st).start_addr c none)

  found_walk :
      (i : ℕ) (prev : Option ℕ) (ptrs : List ℕ) (st : State)
      → Same st
      → Ready st ptrs
      → c < length st.start_addr
      → get_or st.start_addr c none ≡ none
      → IsGrouped t ptrs
      → Before prev
      → (i ≤ found i prev ptrs st) × Met ptrs (drop (found i prev ptrs st - i) ptrs)
  unfolding prioritize filled filter_core walk_core
  found_walk i prev [] st same ready lt empty g b = (ground arith, drop-nil _)
  found_walk i prev (p ∷ ptrs) st same ready lt empty g b = elim (ℕ_discrete (subtask t p).core c) [
    | yes on ↦
        let here : found i prev (p ∷ ptrs) st ≡ i = ground (
          arith,
          kept (suc i) p ptrs st1 same1 ready1 lt1 g (omega arith),
          start-one i prev p st lt,
          starts_core-Before st prev p same b on,
          same p,
        ) in
        (
          omega arith,
          subst (Met (p ∷ ptrs)) (sym (drop_same (found i prev (p ∷ ptrs) st) i (p ∷ ptrs) here))
              (ground (arith, walk-eq-filter p ptrs g on), on),
        )
    | no off ↦ elim (dec_lt (subtask t p).core c) [
      | yes before ↦
          let rest =
            found_walk (suc i) (some p) ptrs st1 same1 ready1 lt1 (empty1 off) g.1 before in
          let e : found i prev (p ∷ ptrs) st ≡ found (suc i) (some p) ptrs st1 =
            ap (λ n. filled n (get_or (prioritize (suc i) (some p) ptrs st1).start_addr c none))
              (omega arith) in
          (
            omega (arith, e, rest.0),
            subst (Met (p ∷ ptrs))
                (sym (drop_later (found i prev (p ∷ ptrs) st) i p ptrs (omega (arith, e, rest.0))))
                (subst (λ n. Met (p ∷ ptrs) (drop (n - suc i) ptrs)) (sym e)
                  (ground (arith, rest.1.0), rest.1.1)),
          )
      | no after ↦
          let past : c < (subtask t p).core = omega arith in
          let gone : found i prev (p ∷ ptrs) st ≡ i + length (p ∷ ptrs) =
            ground (arith, kept (suc i) p ptrs st1 same1 ready1 lt1 g (omega arith), empty1 off) in
          (
            omega (arith, gone),
            subst (Met (p ∷ ptrs)) (sym (drop_past (found i prev (p ∷ ptrs) st) i (p ∷ ptrs) gone))
                (ground (arith, filter-past p ptrs g.0 past), tt),
          )
    ]
  ]
    where
      st1 : State
      st1 = prioritize_one i prev p st

      same1 : Same st1
      same1 = Same-one i prev p st ready.0 same

      ready1 : Ready st1 ptrs
      ready1 = Ready-one i prev p st ptrs ready.1

      lt1 : c < length st1.start_addr
      lt1 = omega (arith, length-starts i prev p st)

      empty1 : (subtask t p).core ≢ c → get_or st1.start_addr c none ≡ none
      empty1 off = ground (arith, start-one i prev p st lt, same p)

length-prioritize :
    (i : ℕ) (prev : Option ℕ) (ptrs : List ℕ) (st : State)
    → length (prioritize i prev ptrs st).start_addr ≡ length st.start_addr
unfolding prioritize
length-prioritize i prev [] st = refl
length-prioritize i prev (p ∷ ptrs) st =
    length-prioritize (suc i) (some p) ptrs (prioritize_one i prev p st)
    ∙ length-starts st.table 0 i prev p st

none_yet : (c : ℕ) → get_or no_starts c none ≡ none
none_yet zero = refl
none_yet (suc zero) = refl
none_yet (suc (suc zero)) = refl
none_yet (suc (suc (suc c))) = refl

-- After the priority loop over subtasks sorted by core, the thread of core `c < CORE_NUM`, which takes
-- its core from its start pointer, visits exactly the subtasks of core `c`, in order.
pub fill_starts-walk :
    (t : Table) (c : ℕ) (sub_ptr : List ℕ)
    → All (λ p. p < length t.subtasks) sub_ptr
    → IsGrouped t sub_ptr
    → c < core_num
    → thread_walk t (
        drop
          (get_or
            (fill_starts
              (length sub_ptr)
              (prioritize 0 none sub_ptr (record { table = t; start_addr = no_starts })).start_addr)
            c
            0)
          sub_ptr)
      ≡ filter_core t c sub_ptr
fill_starts-walk t c sub_ptr lt g small =
    ap (λ k. thread_walk t (drop k sub_ptr))
      (fill_starts-filled (length sub_ptr) c (prioritize 0 none sub_ptr st).start_addr
          (rw (length-prioritize 0 none sub_ptr st) small)
        ∙ shift (length sub_ptr) (get_or (prioritize 0 none sub_ptr st).start_addr c none))
    ∙ (thread_walk-Heads t c _ small met.1 ∙ met.0)
  where
    st : State
    st = record { table = t; start_addr = no_starts }

    met : Met t c sub_ptr (drop (found t c 0 none sub_ptr st - 0) sub_ptr)
    met = (found_walk t c 0 none sub_ptr st (λ k. refl) lt small (none_yet c) g tt).1

    shift : (n : ℕ) (o : Option ℕ) → filled n o ≡ filled (0 + n) o - 0
    shift n o = let e : n ≡ 0 + n = omega arith in ap (λ m. filled m o) e ∙ omega arith
