-- ===== src/E2e/Tables.antt =====
-- The task tables of lab2: the template tasks.h and the three cases.
use cse522s.Base.{ℕ, [], ◌∷◌}
use cse522s.E2e.{Task, Subtask, Table}

-- `{.period = …, .subtask_count = …, .subtask_start_idx = …, .exe_time = …}`
unfoldable pub entry : ℕ → ℕ → ℕ → ℕ → Task
entry period count start exe = record {
  period = period;
  subtask_count = count;
  subtask_start_idx = start;
  exe_time = exe;
}

-- `{.task_id, .subtask_id, .exe_time, .loop_count, .core, .priority, .cumulative_exe_time}`
unfoldable pub row : ℕ → ℕ → ℕ → ℕ → ℕ → ℕ → ℕ → Subtask
row task_id subtask_id exe loops core priority cumulative = record {
  task_id = task_id;
  subtask_id = subtask_id;
  exe_time = exe;
  last_release_time = 0;
  loop_count = loops;
  cumulative_exe_time = cumulative;
  core = core;
  priority = priority;
}

-- The arrays of lab2/tasks.h.
unfoldable pub template : Table
unfolding entry row
template = record {
  tasks = entry 6000 3 0 0 ∷ entry 2000 3 3 0 ∷ [];
  subtasks =
      row 0 0 1000 0 0 0 0
      ∷ row 0 1 2000 0 0 0 0
      ∷ row 0 2 2000 0 0 0 0
      ∷ row 1 0 500 0 0 0 0
      ∷ row 1 1 500 0 0 0 0
      ∷ row 1 2 500 0 0 0 0
      ∷ [];
}

-- The arrays of lab2/sched.h.
unfoldable pub sched : Table
unfolding entry row
sched = record {
  tasks =
      entry 1000 1 0 510
      ∷ entry 1000 1 1 510
      ∷ entry 1000 1 2 510
      ∷ entry 1000 3 3 750
      ∷ entry 1000 3 6 420
      ∷ [];
  subtasks =
      row 0 0 510 5052186 0 48 510
      ∷ row 1 0 510 5052917 2 48 510
      ∷ row 2 0 510 5033108 1 48 510
      ∷ row 3 0 250 2710750 2 50 250
      ∷ row 3 1 250 2700451 1 50 500
      ∷ row 3 2 250 2539852 0 49 750
      ∷ row 4 0 140 1581588 0 50 140
      ∷ row 4 1 140 1465037 2 49 280
      ∷ row 4 2 140 1465228 1 49 420
      ∷ [];
}

-- The arrays of lab2/unsched.h.
unfoldable pub unsched : Table
unfolding entry row
unsched = record {
  tasks =
      entry 1000 1 0 510
      ∷ entry 1000 1 1 510
      ∷ entry 1000 1 2 510
      ∷ entry 2000 3 3 1800
      ∷ entry 4000 3 6 2800
      ∷ [];
  subtasks =
      row 0 0 510 5075267 0 49 510
      ∷ row 1 0 510 5893716 2 50 510
      ∷ row 2 0 510 5874642 1 50 510
      ∷ row 3 0 600 6933691 0 50 600
      ∷ row 3 1 600 6274416 2 49 1200
      ∷ row 3 2 600 6040600 1 49 1800
      ∷ row 4 0 2000 19921875 0 48 2000
      ∷ row 4 1 400 3963097 2 48 2400
      ∷ row 4 2 400 3947553 1 48 2800
      ∷ [];
}

-- The arrays of lab2/missched.h.
unfoldable pub missched : Table
unfolding entry row
missched = record {
  tasks =
      entry 1000 1 0 510
      ∷ entry 1000 1 1 510
      ∷ entry 1000 1 2 510
      ∷ entry 1000 3 3 750
      ∷ entry 1000 3 6 420
      ∷ [];
  subtasks =
      row 0 0 510 4052186 0 48 510
      ∷ row 1 0 510 4052917 2 48 510
      ∷ row 2 0 510 4033108 1 48 510
      ∷ row 3 0 250 2710750 2 50 250
      ∷ row 3 1 250 2700451 1 50 500
      ∷ row 3 2 250 2539852 0 49 750
      ∷ row 4 0 140 581588 0 50 140
      ∷ row 4 1 140 465037 2 49 280
      ∷ row 4 2 140 465228 1 49 420
      ∷ [];
}
