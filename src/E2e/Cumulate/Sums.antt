-- ===== src/E2e/Cumulate/Sums.antt =====
-- The cumulative times are prefix sums.
use native.Mathlib.Decide.{ℕ_discrete}
use mathlib.Core.Path.{subst}
use cse522s.Base.{
  ℕ, zero, suc, ◌+◌, ◌-◌, ◌^◌, ◌≤◌, ◌<◌, ◌≡◌, ◌≢◌, refl, ◌∙◌, ap, arith, ◌==◌, if◌then◌else◌,
  get_or, set, length, length-set, get_or-set_self, get_or-set_ne, u32,
}
use cse522s.E2e.{Subtask, Table, task, subtask, no_task, no_subtask}
use cse522s.E2e.Cumulate.{cumulate_one, cumulate_from}

-- The execution times of `n` subtasks from index `k` on.
unfoldable pub sum_exe : Table → ℕ → ℕ → ℕ
sum_exe t k zero = 0
sum_exe t k (suc n) = sum_exe t k n + (subtask t (k + n)).exe_time

-- Before round `j`: the first `j` cumulative times are prefix sums; `t` is the table at the start.
record Inv (t : Table) (i j : ℕ) (u : Table) : Type 0 where
  size : length u.subtasks ≡ length t.subtasks
  count : (task u i).subtask_count ≡ (task t i).subtask_count
  base : (task u i).subtask_start_idx ≡ (task t i).subtask_start_idx
  exe : (k : ℕ) → (subtask u k).exe_time ≡ (subtask t k).exe_time
  sums :
      (k : ℕ)
      → k < j
      → (subtask u ((task t i).subtask_start_idx + k)).cumulative_exe_time
        ≡ sum_exe t (task t i).subtask_start_idx (suc k)
  width : length u.tasks ≡ length t.tasks
  last :
      0 < j
      → j ≡ (task t i).subtask_count
      → (task u i).exe_time ≡ sum_exe t (task t i).subtask_start_idx (task t i).subtask_count

index_pred : (b j : ℕ) → b + suc j - 1 ≡ b + j
index_pred b j = omega arith

module _ (t : Table) (i : ℕ) where
  abbrev base_of : ℕ
  base_of = (task t i).subtask_start_idx

  abbrev count_of : ℕ
  count_of = (task t i).subtask_count

  sum_mono : (k n m : ℕ) → n ≤ m → sum_exe t k n ≤ sum_exe t k m
  unfolding sum_exe
  sum_mono k n zero le = ground arith
  sum_mono k n (suc m) le = elim (ℕ_discrete n (suc m)) [
    | yes e ↦ ground (arith, e)
    | no ne ↦ omega (arith, sum_mono k n m (omega arith))
  ]

  -- The value that round `j` writes.
  prefix : Table → ℕ → ℕ
  prefix u j = u32 (
      (if j == 0 then 0 else (subtask u (u32 (base_of + j) - 1)).cumulative_exe_time)
      + (subtask u (u32 (base_of + j))).exe_time)

  subtasks-cumulate_one :
      (j : ℕ) (u : Table)
      → (task u i).subtask_start_idx ≡ base_of
      → (cumulate_one i j u).subtasks
        ≡ set u.subtasks
            (u32 (base_of + j))
            (record (subtask u (u32 (base_of + j))) { cumulative_exe_time = prefix u j })
  unfolding cumulate_one prefix
  subtasks-cumulate_one j u e = ground arith

  prefix_lem :
      (j : ℕ) (u : Table)
      → Inv t i j u
      → base_of + count_of < 2 ^ 32
      → sum_exe t base_of count_of < 2 ^ 32
      → j < count_of
      → prefix u j ≡ sum_exe t base_of (suc j)
  unfolding prefix sum_exe
  prefix_lem zero u inv small fits lt =
      ground (arith, inv.exe (base_of + 0), sum_mono base_of 1 count_of)
  prefix_lem (suc j) u inv small fits lt = ground (
    arith,
    inv.exe (base_of + suc j),
    inv.sums j,
    sum_mono base_of (suc (suc j)) count_of,
    ap (λ k. (subtask u k).cumulative_exe_time) (index_pred base_of j),
  )

  -- `cur_idx` does not wrap.
  cur_idx-eq :
      (j : ℕ) → base_of + count_of < 2 ^ 32 → j < count_of → u32 (base_of + j) ≡ base_of + j
  cur_idx-eq j small lt = omega arith

  -- Round `j` writes the sum of the first `j + 1` execution times, and nothing else.
  written :
      (j : ℕ) (u : Table)
      → Inv t i j u
      → base_of + count_of < 2 ^ 32
      → sum_exe t base_of count_of < 2 ^ 32
      → j < count_of
      → (cumulate_one i j u).subtasks
        ≡ set u.subtasks
            (base_of + j)
            (record (subtask u (base_of + j)) { cumulative_exe_time = sum_exe t base_of (suc j) })
  written j u inv small total lt =
      rw (
        subtasks-cumulate_one j u inv.base,
        prefix_lem j u inv small total lt,
        cur_idx-eq j small lt,
      )

  module _ (j : ℕ) (u : Table) (inv : Inv t i j u) (here : i < length t.tasks)
      (fits : base_of + count_of ≤ length t.subtasks) (small : base_of + count_of < 2 ^ 32)
      (total : sum_exe t base_of count_of < 2 ^ 32) (lt : j < count_of) where
    value : Subtask
    value = record (subtask u (base_of + j)) { cumulative_exe_time = sum_exe t base_of (suc j) }

    after :
        (k : ℕ)
        → subtask (cumulate_one i j u) k ≡ get_or (set u.subtasks (base_of + j) value) k no_subtask
    unfolding value
    after k = ap (λ l. get_or l k no_subtask) (written j u inv small total lt)

    after_self : subtask (cumulate_one i j u) (base_of + j) ≡ value
    after_self =
        after (base_of + j)
        ∙ get_or-set_self u.subtasks (base_of + j) value no_subtask (omega (arith, inv.size))

    after_ne : (k : ℕ) → base_of + j ≢ k → subtask (cumulate_one i j u) k ≡ subtask u k
    after_ne k ne = after k ∙ get_or-set_ne u.subtasks (base_of + j) k value no_subtask ne

    exe_kept : (k : ℕ) → (subtask (cumulate_one i j u) k).exe_time ≡ (subtask t k).exe_time
    unfolding value
    exe_kept k = elim (ℕ_discrete (base_of + j) k) [
      | yes e ↦ ground (arith, e, after_self, inv.exe k, inv.exe (base_of + j))
      | no ne ↦ ground (arith, after_ne k ne, inv.exe k)
    ]

    sums_kept :
        (k : ℕ)
        → k < suc j
        → (subtask (cumulate_one i j u) (base_of + k)).cumulative_exe_time
          ≡ sum_exe t base_of (suc k)
    unfolding value
    sums_kept k kl = elim (ℕ_discrete j k) [
      | yes e ↦ rw (← e) (ground (arith, after_self))
      | no ne ↦ ground (arith, after_ne (base_of + k) (omega arith), inv.sums k)
    ]

    set-task :
        get_or (set u.tasks i (record (task u i) { exe_time = prefix u j })) i no_task
        ≡ record (task u i) { exe_time = prefix u j }
    set-task = get_or-set_self u.tasks i _ no_task (omega (arith, inv.width))

    -- The task's own entry: its shape is kept, and the last round writes the total.
    task_kept :
        ((task (cumulate_one i j u) i).subtask_count ≡ count_of)
        × ((task (cumulate_one i j u) i).subtask_start_idx ≡ base_of)
        × (length (cumulate_one i j u).tasks ≡ length t.tasks)
    unfolding cumulate_one prefix
    task_kept = ground (
      arith,
      set-task,
      inv.count,
      inv.base,
      inv.width,
      length-set u.tasks i (record (task u i) { exe_time = prefix u j }),
    )

    last_total :
        suc j ≡ count_of → (task (cumulate_one i j u) i).exe_time ≡ sum_exe t base_of count_of
    unfolding cumulate_one prefix
    last_total e = ground (
      arith,
      set-task,
      inv.count,
      inv.base,
      prefix_lem j u inv small total lt,
      ap (sum_exe t base_of) e,
    )

    cumulate_one-Inv : Inv t i (suc j) (cumulate_one i j u)
    cumulate_one-Inv = record {
      size = ap length (written j u inv small total lt) ∙ length-set u.subtasks _ _ ∙ inv.size;
      count = task_kept.0;
      base = task_kept.1;
      exe = exe_kept;
      sums = sums_kept;
      width = task_kept.2;
      last = λ _ e. last_total e;
    }

-- All the rounds that are left.
cumulate_from-Inv :
    (t : Table) (i n j : ℕ) (u : Table)
    → Inv t i j u
    → i < length t.tasks
    → (task t i).subtask_start_idx + (task t i).subtask_count ≤ length t.subtasks
    → (task t i).subtask_start_idx + (task t i).subtask_count < 2 ^ 32
    → sum_exe t (task t i).subtask_start_idx (task t i).subtask_count < 2 ^ 32
    → j + n ≡ (task t i).subtask_count
    → Inv t i (task t i).subtask_count (cumulate_from n i j u)
unfolding cumulate_from
cumulate_from-Inv t i zero j u inv here fits small total e =
    let e' : j ≡ (task t i).subtask_count = omega arith in subst (λ m. Inv t i m u) e' inv
cumulate_from-Inv t i (suc n) j u inv here fits small total e =
    cumulate_from-Inv t i n (j + 1) (cumulate_one i j u)
      (subst (λ m. Inv t i m (cumulate_one i j u)) (omega arith)
        (cumulate_one-Inv t i j u inv here fits small total (omega arith)))
      here fits small total (omega arith)

-- After the inner loop for task `i`, each of its subtasks has the sum of the execution times up to
-- its own as cumulative time, and the task, if it has a subtask, has the sum of all. The task and its
-- range of subtasks are in the arrays, and the sum fits 32 bits.
pub cumulate_from-sums :
    (t : Table) (i : ℕ)
    → i < length t.tasks
    → (task t i).subtask_start_idx + (task t i).subtask_count ≤ length t.subtasks
    → (task t i).subtask_start_idx + (task t i).subtask_count < 2 ^ 32
    → sum_exe t (task t i).subtask_start_idx (task t i).subtask_count < 2 ^ 32
    → ((k : ℕ)
        → k < (task t i).subtask_count
        → (subtask
            (cumulate_from (task t i).subtask_count i 0 t)
            ((task t i).subtask_start_idx + k)).cumulative_exe_time
          ≡ sum_exe t (task t i).subtask_start_idx (suc k))
      × (0 < (task t i).subtask_count
          → (task (cumulate_from (task t i).subtask_count i 0 t) i).exe_time
            ≡ sum_exe t (task t i).subtask_start_idx (task t i).subtask_count)
cumulate_from-sums t i here fits small total = (inv.sums, λ pos. inv.last pos refl)
  where
    inv : Inv t i (task t i).subtask_count (cumulate_from (task t i).subtask_count i 0 t)
    inv =
        cumulate_from-Inv t i (task t i).subtask_count 0 t
          (record {
            size = refl;
            count = refl;
            base = refl;
            exe = λ k. refl;
            sums = λ k l. absurd (omega arith);
            width = refl;
            last = λ p. absurd (omega arith);
          })
          here fits small total (omega arith)
