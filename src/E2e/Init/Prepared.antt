-- ===== src/E2e/Init/Prepared.antt =====
-- The two sorts and the three loops together: what "calibrate" mode prepares.
use cse522s.Base.{
  ℕ, zero, suc, ◌+◌, ◌≤◌, ◌<◌, ◌≡◌, ◌≢◌, refl, ◌∙◌, ap, sym, List, [], ◌∷◌, ℤ, none, arith, get_or,
  drop, length, All, All-map, IsDistinct,
}
use mathlib.Core.List.{Permᴰ}
use cse522s.E2e.{core_num, Table, subtask, comp_util, comp_rel_ddl}
use cse522s.E2e.Compare.{IsNarrow, comp_rel_ddl-neg, comp_rel_ddl_trans, grouped-All}
use cse522s.E2e.Cumulate.{Scan, scan}
use cse522s.E2e.Cumulate.Lengths.{length-scan}
use cse522s.E2e.Assign.Bounds.{assign-keeps, tasks-assign, length-assign, assign-core}
use cse522s.E2e.Priority.Starts.{walk_core, filter_core, thread_walk, fill_starts-walk}
use cse522s.E2e.Calibrate.{core_at}
use cse522s.E2e.Priority.Chain.{core-prioritize}
use cse522s.E2e.Assign
use cse522s.E2e.Priority
use cse522s.E2e.Priority.Order.{IsGrouped, IsRanked, prioritize-IsRanked}
use cse522s.E2e.Init.{indices, prepare}
use cse522s.E2e.Init.Sorting.{IsSorted, IsSort, All-perm, IsDistinct-perm, length-perm}

indices-above : (n i k : ℕ) → k < i → All (λ j. j ≢ k) (indices n i)
unfolding indices
indices-above zero i k lt = tt
indices-above (suc n) i k lt = (omega arith, indices-above n (suc i) k (omega arith))

indices-IsDistinct : (n i : ℕ) → IsDistinct (indices n i)
unfolding indices
indices-IsDistinct zero i = tt
indices-IsDistinct (suc n) i =
    (indices-above n (suc i) i (omega arith), indices-IsDistinct n (suc i))

indices-lt : (n i m : ℕ) → i + n ≤ m → All (λ j. j < m) (indices n i)
unfolding indices
indices-lt zero i m le = tt
indices-lt (suc n) i m le = (omega arith, indices-lt n (suc i) m (omega arith))

length-indices : (n i : ℕ) → length (indices n i) ≡ n
unfolding indices
length-indices zero i = refl
length-indices (suc n) i = ap suc (length-indices n (suc i))

sorted-IsGrouped : (t : Table) (ptrs : List ℕ) → IsSorted (comp_rel_ddl t) ptrs → IsGrouped t ptrs
sorted-IsGrouped t [] h = tt
sorted-IsGrouped t (p ∷ ptrs) h = (grouped-All t p ptrs h.0, sorted-IsGrouped t ptrs h.1)

walk-cores :
    (t u : Table) (c : ℕ) (ptrs : List ℕ)
    → ((k : ℕ) → (subtask u k).core ≡ (subtask t k).core)
    → walk_core u c ptrs ≡ walk_core t c ptrs
unfolding walk_core
walk-cores t u c [] same = refl
walk-cores t u c (p ∷ ptrs) same = ground (arith, same p, walk-cores t u c ptrs same)

thread-cores :
    (t u : Table) (ptrs : List ℕ)
    → ((k : ℕ) → (subtask u k).core ≡ (subtask t k).core)
    → thread_walk u ptrs ≡ thread_walk t ptrs
unfolding thread_walk core_at
thread-cores t u [] same = refl
thread-cores t u (p ∷ ptrs) same =
    ground (arith, same p, walk-cores t u (subtask t p).core (p ∷ ptrs) same)

filter-cores :
    (t u : Table) (c : ℕ) (ptrs : List ℕ)
    → ((k : ℕ) → (subtask u k).core ≡ (subtask t k).core)
    → filter_core u c ptrs ≡ filter_core t c ptrs
unfolding filter_core
filter-cores t u c [] same = refl
filter-cores t u c (p ∷ ptrs) same = ground (arith, same p, filter-cores t u c ptrs same)

-- What `E2E_init` needs of its input: after the first loop the fields are 21-bit, and each task that has
-- a subtask has a positive execution time.
abbrev pub IsWorkload : Table → Type 0
IsWorkload t =
    (length t.subtasks ≤ 50)
    × All (IsNarrow (scan (length t.tasks) t).table) (indices (length t.subtasks) 0)

module _ (sort : (ℕ → ℕ → ℤ) → List ℕ → List ℕ) (good : IsSort sort) (t : Table)
    (work : IsWorkload t) where
  scanned : Scan
  scanned = scan (length t.tasks) t

  by_util : List ℕ
  by_util = sort (comp_util scanned.table) (indices (length t.subtasks) 0)

  placed : Assign.State
  placed = Assign.assign scanned.hyper_period by_util (Assign.start scanned.table)

  sub_ptr : List ℕ
  sub_ptr = sort (comp_rel_ddl placed.table) by_util

  same_size : length scanned.table.subtasks ≡ length t.subtasks
  unfolding scanned
  same_size = length-scan (length t.tasks) t

  by_util-lt : All (λ i. i < length scanned.table.subtasks) by_util
  unfolding by_util
  by_util-lt =
      All-perm _ (good.permutes (comp_util scanned.table) (indices (length t.subtasks) 0))
        (rw same_size (indices-lt (length t.subtasks) 0 (length t.subtasks) (omega arith)))

  by_util-IsDistinct : IsDistinct by_util
  unfolding by_util
  by_util-IsDistinct =
      IsDistinct-perm (good.permutes (comp_util scanned.table) (indices (length t.subtasks) 0))
        (indices-IsDistinct (length t.subtasks) 0)

  placed-IsNarrow : (k : ℕ) → IsNarrow scanned.table k → IsNarrow placed.table k
  unfolding placed
  placed-IsNarrow k n = ground (
    arith,
    (assign-keeps scanned.hyper_period by_util k (Assign.start scanned.table) by_util-lt refl).1,
    tasks-assign scanned.hyper_period by_util (Assign.start scanned.table),
  )

  sub_ptr-perm : Permᴰ (indices (length t.subtasks) 0) sub_ptr
  unfolding sub_ptr by_util
  sub_ptr-perm = Permᴰ.trans (good.permutes _ _) (good.permutes _ _)

  sub_ptr-IsGrouped : IsGrouped placed.table sub_ptr
  unfolding sub_ptr by_util scanned
  sub_ptr-IsGrouped = sorted-IsGrouped placed.table sub_ptr (
      good.sorts (comp_rel_ddl placed.table) (IsNarrow placed.table) by_util
        (record {
          opposite = comp_rel_ddl-neg placed.table;
          transitive = comp_rel_ddl_trans placed.table;
        })
        (All-perm _ (good.permutes (comp_util scanned.table) (indices (length t.subtasks) 0))
          (All-map placed-IsNarrow (indices (length t.subtasks) 0) work.1)))

  sub_ptr-lt : All (λ i. i < length placed.table.subtasks) sub_ptr
  unfolding sub_ptr placed
  sub_ptr-lt =
      All-perm _ (good.permutes (comp_rel_ddl placed.table) by_util)
        (rw (length-assign scanned.hyper_period by_util (Assign.start scanned.table)) by_util-lt)

  sub_ptr-IsDistinct : IsDistinct sub_ptr
  unfolding sub_ptr
  sub_ptr-IsDistinct =
      IsDistinct-perm (good.permutes (comp_rel_ddl placed.table) by_util) by_util-IsDistinct

  ranked : Priority.State
  ranked = record { table = placed.table; start_addr = Priority.no_starts }

  same_core :
      (k : ℕ)
      → (subtask (Priority.prioritize 0 none sub_ptr ranked).table k).core
        ≡ (subtask placed.table k).core
  unfolding ranked
  same_core k = core-prioritize 0 none sub_ptr k ranked sub_ptr-lt

  few : length sub_ptr ≤ 50
  few = omega (arith, length-perm sub_ptr-perm, length-indices (length t.subtasks) 0, work.0)

  prepare-table : (prepare sort t).table ≡ (Priority.prioritize 0 none sub_ptr ranked).table
  unfolding prepare ranked sub_ptr placed by_util scanned
  prepare-table = refl

  prepare-sub_ptr : (prepare sort t).sub_ptr ≡ sub_ptr
  unfolding prepare sub_ptr placed by_util scanned
  prepare-sub_ptr = refl

  prepare-start_addr :
      (prepare sort t).start_addr
      ≡ Priority.fill_starts (length sub_ptr) (Priority.prioritize 0 none sub_ptr ranked).start_addr
  unfolding prepare ranked sub_ptr placed by_util scanned
  prepare-start_addr = refl

  cores : All (λ i. (subtask placed.table i).core < core_num) sub_ptr
  unfolding sub_ptr placed
  cores = All-perm _ (good.permutes (comp_rel_ddl placed.table) by_util) (
      assign-core scanned.hyper_period by_util (Assign.start scanned.table) by_util-IsDistinct
        by_util-lt refl)

  after_ranking :
      All
        (λ i. (subtask (Priority.prioritize 0 none sub_ptr ranked).table i).core < core_num)
        sub_ptr
  after_ranking = All-map (λ i h. omega (arith, same_core i, h)) sub_ptr cores

  walk_ranked :
      (c : ℕ)
      → c < core_num
      → thread_walk placed.table (
          drop
            (get_or
              (Priority.fill_starts
                (length sub_ptr)
                (Priority.prioritize 0 none sub_ptr ranked).start_addr)
              c
              0)
            sub_ptr)
        ≡ filter_core placed.table c sub_ptr
  unfolding ranked
  walk_ranked c small = fill_starts-walk placed.table c sub_ptr sub_ptr-lt sub_ptr-IsGrouped small

  -- For every sort that permutes and sorts (`IsSort`), and every workload of at most 50 subtasks with
  -- 21-bit fields (`IsWorkload`): in "calibrate" mode `sub_ptr` ends up as an arrangement of all
  -- subtasks, and each has a core below `CORE_NUM`.
  pub prepare-cores :
      Permᴰ (indices (length t.subtasks) 0) (prepare sort t).sub_ptr
      × All (λ i. (subtask (prepare sort t).table i).core < core_num) (prepare sort t).sub_ptr
  prepare-cores = rw (prepare-table, prepare-sub_ptr) (sub_ptr-perm, after_ranking)

  -- For every sort that permutes and sorts (`IsSort`), and every workload of at most 50 subtasks with
  -- 21-bit fields and positive total execution times (`IsWorkload`): of two entries of `sub_ptr` on one
  -- core, the earlier has the higher priority.
  pub prepare-IsRanked : IsRanked (prepare sort t).table (prepare sort t).sub_ptr
  prepare-IsRanked =
      rw (prepare-table, prepare-sub_ptr)
        (unfold ranked in
          prioritize-IsRanked placed.table sub_ptr sub_ptr-IsDistinct sub_ptr-lt sub_ptr-IsGrouped
            few)

  -- For every sort that permutes and sorts (`IsSort`), and every workload of at most 50 subtasks with
  -- 21-bit fields and positive total execution times (`IsWorkload`): each core's calibration thread,
  -- which takes its core from the start pointer it is given, meets exactly the subtasks of the core that
  -- it is for, in the order of `sub_ptr`.
  pub prepare-walk :
      (c : ℕ)
      → c < core_num
      → thread_walk
          (prepare sort t).table
          (drop (get_or (prepare sort t).start_addr c 0) (prepare sort t).sub_ptr)
        ≡ filter_core (prepare sort t).table c (prepare sort t).sub_ptr
  prepare-walk c small =
      rw (prepare-table, prepare-sub_ptr, prepare-start_addr)
        (thread-cores placed.table (Priority.prioritize 0 none sub_ptr ranked).table _ same_core
          ∙ walk_ranked c small
          ∙ sym (
              filter-cores placed.table (Priority.prioritize 0 none sub_ptr ranked).table c sub_ptr
                same_core))
