-- ===== src/E2e/Threads/Static.antt =====
-- What the threads leave alone: all of the tables but the release times. And how tables are laid out.
use native.Mathlib.Decide.{ℕ_discrete}
use cse522s.Base.{
  ℕ, zero, suc, ◌+◌, ◌<◌, ◌^◌, ◌≡◌, refl, ◌∙◌, ap, List, [], ◌∷◌, length, get_or, set, length-set,
  get_or-set_self, get_or-set_ne, ◌==◌, if◌then◌else◌, arith,
}
use cse522s.E2e.{Table, Task, Subtask, no_subtask, task, subtask, parent}
use cse522s.E2e.Run.{stamp, successor, last_id}
use cse522s.E2e.Init.{indices, clear_releases, init_run}

-- The subtasks of a task stand side by side from its start index on, numbered from 0, as in the headers
-- of lab2.
pub record IsLaidOut (t : Table) : Type 0 where
  pub small : length t.subtasks < 2 ^ 32
  pub place :
      (i : ℕ)
      → i < length t.subtasks
      → (parent t (subtask t i)).subtask_start_idx + (subtask t i).subtask_id ≡ i
  pub count :
      (i : ℕ)
      → i < length t.subtasks
      → ((subtask t i).subtask_id < (parent t (subtask t i)).subtask_count)
        × ((parent t (subtask t i)).subtask_count < 2 ^ 32)
  pub next :
      (i : ℕ)
      → i < length t.subtasks
      → (subtask t i).subtask_id + 1 < (parent t (subtask t i)).subtask_count
      → (suc i < length t.subtasks) × ((subtask t (suc i)).task_id ≡ (subtask t i).task_id)
  pub first : (j : ℕ) → j < length t.tasks → (subtask t (task t j).subtask_start_idx).subtask_id ≡ 0

-- `t` differs from `t₀` in release times only.
pub record Same (t₀ t : Table) : Type 0 where
  pub tasks : t.tasks ≡ t₀.tasks
  pub size : length t.subtasks ≡ length t₀.subtasks
  pub ids :
      (k : ℕ)
      → ((subtask t k).task_id ≡ (subtask t₀ k).task_id)
        × ((subtask t k).subtask_id ≡ (subtask t₀ k).subtask_id)

pub Same-refl : (t : Table) → Same t t
Same-refl t = record { tasks = refl; size = refl; ids = λ k. (refl, refl) }

pub Same-parent :
    {t₀ t : Table} → Same t₀ t → (k : ℕ) → parent t (subtask t k) ≡ parent t₀ (subtask t₀ k)
Same-parent same k = rw ((same.ids k).0, same.tasks) refl

-- A subtask with another release time.
abbrev timed : List Subtask → (i time : ℕ) → Subtask
timed l i time = record (get_or l i no_subtask) { last_release_time = time }

set-ids :
    (l : List Subtask) (i time k : ℕ)
    → ((get_or (set l i (timed l i time)) k no_subtask).task_id ≡ (get_or l k no_subtask).task_id)
      × ((get_or (set l i (timed l i time)) k no_subtask).subtask_id
          ≡ (get_or l k no_subtask).subtask_id)
set-ids [] i time k = (refl, refl)
set-ids (x ∷ l) zero time zero = (refl, refl)
set-ids (x ∷ l) zero time (suc k) = (refl, refl)
set-ids (x ∷ l) (suc i) time zero = (refl, refl)
set-ids (x ∷ l) (suc i) time (suc k) = set-ids l i time k

pub Same-stamp : {t₀ t : Table} (i time : ℕ) → Same t₀ t → Same t₀ (stamp t i time)
unfolding stamp
Same-stamp {t₀} {t} i time same = record {
  tasks = same.tasks;
  size = length-set t.subtasks i (timed t.subtasks i time) ∙ same.size;
  ids = λ k.
      let (e, e') = set-ids t.subtasks i time k in let (f, f') = same.ids k in (e ∙ f, e' ∙ f');
}

clear-Same : {t₀ t : Table} (is : List ℕ) → Same t₀ t → Same t₀ (clear_releases is t)
unfolding clear_releases stamp
clear-Same [] same = same
clear-Same (i ∷ is) same = clear-Same is (Same-stamp i 0 same)

pub init_run-Same : (t : Table) → Same t (init_run t).0
unfolding init_run
init_run-Same t = clear-Same (indices (length t.subtasks) 0) (Same-refl t)

-- The release times after a stamp.
pub last-stamp :
    (t : Table) (i time k : ℕ)
    → i < length t.subtasks
    → (subtask (stamp t i time) k).last_release_time
      ≡ (if k == i then time else (subtask t k).last_release_time)
unfolding stamp
last-stamp t i time k lt = elim (ℕ_discrete i k) [
  | yes e ↦
      rw (← e, get_or-set_self t.subtasks i (timed t.subtasks i time) no_subtask lt) (ground arith)
  | no ne ↦
      rw (get_or-set_ne t.subtasks i k (timed t.subtasks i time) no_subtask ne) (ground (arith, ne))
]

pub Same-IsLaidOut : {t₀ t : Table} → Same t₀ t → IsLaidOut t₀ → IsLaidOut t
Same-IsLaidOut {t₀} {t} same out = record {
  small = omega (arith, out.small, same.size);
  place =
      λ i lt. rw (Same-parent same i, (same.ids i).1) (out.place i (omega (arith, lt, same.size)));
  count =
      λ i lt. rw (Same-parent same i, (same.ids i).1) (out.count i (omega (arith, lt, same.size)));
  next = λ i lt more.
      let (in_range, e) = out.next i (omega (arith, lt, same.size)) (
        omega
          (arith, more, (same.ids i).1, ap (λ (p : Task). p.subtask_count) (Same-parent same i))) in
      (omega (arith, in_range, same.size), rw ((same.ids i).0, (same.ids (suc i)).0) e);
  first = λ j lt.
      rw (same.tasks, (same.ids (task t₀ j).subtask_start_idx).1)
        (out.first j (omega (arith, lt, ap length same.tasks)));
}

module _ {t : Table} (out : IsLaidOut t) (i : ℕ) (lt : i < length t.subtasks) where
  -- `cur->subtask_id < parent->subtask_count - 1` is what it seems.
  pub last_id_lem : last_id (parent t (subtask t i)) + 1 ≡ (parent t (subtask t i)).subtask_count
  unfolding last_id
  last_id_lem = omega (arith, out.count i lt)

  -- The successor of a subtask that is not the last is the next one, of the same task.
  pub successor_lem :
      (subtask t i).subtask_id + 1 < (parent t (subtask t i)).subtask_count
      → successor t (subtask t i) ≡ suc i
  unfolding successor
  successor_lem more = omega (arith, out.place i lt, (out.next i lt more).0, out.small)

  pub next-parent :
      (subtask t i).subtask_id + 1 < (parent t (subtask t i)).subtask_count
      → parent t (subtask t (suc i)) ≡ parent t (subtask t i)
  next-parent more = ap (task t) ((out.next i lt more).1)
