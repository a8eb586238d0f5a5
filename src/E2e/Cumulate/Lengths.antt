-- ===== src/E2e/Cumulate/Lengths.antt =====
-- The first loop keeps the number of subtasks.
use cse522s.Base.{
  ℕ, zero, suc, ◌+◌, ◌-◌, ◌≡◌, refl, ◌∙◌, ◌==◌, arith, length, length-set, if◌then◌else◌, u32,
}
use cse522s.E2e.{Table, task, subtask}
use cse522s.E2e.Cumulate.{cumulate_one, cumulate_from, Scan, scan_one, scan_from, scan}

length-cumulate_one :
    (i j : ℕ) (t : Table) → length (cumulate_one i j t).subtasks ≡ length t.subtasks
unfolding cumulate_one
length-cumulate_one i j t =
    let k = u32 ((task t i).subtask_start_idx + j) in
    let before = if j == 0 then 0 else (subtask t (k - 1)).cumulative_exe_time in
    ground (
      arith,
      length-set t.subtasks k
          (record (subtask t k) { cumulative_exe_time = u32 (before + (subtask t k).exe_time) }),
    )

length-cumulate_from :
    (n i j : ℕ) (t : Table) → length (cumulate_from n i j t).subtasks ≡ length t.subtasks
unfolding cumulate_from
length-cumulate_from zero i j t = refl
length-cumulate_from (suc n) i j t =
    length-cumulate_from n i (j + 1) (cumulate_one i j t) ∙ length-cumulate_one i j t

length-scan_from :
    (n i : ℕ) (s : Scan) → length (scan_from n i s).table.subtasks ≡ length s.table.subtasks
unfolding scan_from scan_one
length-scan_from zero i s = refl
length-scan_from (suc n) i s =
    length-scan_from n (i + 1) (scan_one i s) ∙ length-cumulate_from _ i 0 s.table

pub length-scan : (n : ℕ) (t : Table) → length (scan n t).table.subtasks ≡ length t.subtasks
unfolding scan
length-scan n t = length-scan_from n 0 (record { table = t; hyper_period = 0 })
