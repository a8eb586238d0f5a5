-- ===== src/Observer.antt =====
-- studio12/process_observer.c: the comparison of two listings of process ids. A listing is the whole
-- array, with what stands behind its entries, since the second loop reads past them.
pub mod Changes
pub mod Program
pub mod Anomalous
pub mod Reports
mod Tests
use cse522s.Base.{ℕ, zero, suc, ◌+◌, Bool, true, false, List, [], ◌∷◌, ◌++◌, ◌==◌, if◌then◌else◌}

-- An array of process ids and how many of them `readdir` gave.
pub record Listing : Type 0 where
  pub pid : ℕ → ℕ
  pub len : ℕ

pub data Line : Type 0 where
  created : (pid : ℕ) → Line
  deleted : (pid : ℕ) → Line

-- The inner loop from `k` on: `flag` is cleared when `new_list[j] == old_list[k]`.
unfoldable pub keep_flag : (rounds k : ℕ) (new_pid : ℕ) (old_pid : ℕ → ℕ) (flag : Bool) → Bool
keep_flag zero k new_pid old_pid flag = flag
keep_flag (suc rounds) k new_pid old_pid flag =
    keep_flag rounds (suc k) new_pid old_pid (if new_pid == old_pid k then false else flag)

module _ (old_list new_list : Listing) where
  -- `create` after its inner loop, over the old listing
  pub is_created : (j : ℕ) → Bool
  is_created j = keep_flag old_list.len 0 (new_list.pid j) old_list.pid true

  -- `delete` after its inner loop, over as many entries as the new listing has
  pub is_deleted : (j : ℕ) → Bool
  is_deleted j = keep_flag new_list.len 0 (new_list.pid j) old_list.pid true

  -- The two outer loops, for the rounds left.
  unfoldable pub created_lines : (rounds j : ℕ) → List Line
  created_lines zero j = []
  created_lines (suc rounds) j =
      let rest = created_lines rounds (suc j) in
      if is_created j then created (new_list.pid j) ∷ rest else rest

  unfoldable pub deleted_lines : (rounds j : ℕ) → List Line
  deleted_lines zero j = []
  deleted_lines (suc rounds) j =
      let rest = deleted_lines rounds (suc j) in
      if is_deleted j then deleted (old_list.pid j) ∷ rest else rest

  -- What one round of `main` prints, without the chains of parents.
  pub changes : List Line
  changes = created_lines new_list.len 0 ++ deleted_lines old_list.len 0
