-- ===== src/Monitoring.antt =====
-- studio10/monitoring.c: a program that asks to be told when one of two groups of processes runs out of
-- memory, and tells it once for each. The kernel's answers are arguments.
mod Tests
use cse522s.Base.{
  ℕ, zero, suc, Bool, true, false, Option, none, some, List, [], ◌∷◌, ◌++◌, ◌==◌, if◌then◌else◌, ℤ,
  pos, negsuc,
}

pub data Call : Type 0 where
  write_control : (fd : ℤ) (event_fd : ℕ) (oom_fd : ℤ) → Call
  epoll_add : (fd : ℕ) → Call
  epoll_del : (fd : ℕ) → Call
  oom_at_child1 : Call  -- a line
  oom_at_child2 : Call  -- a line
  unrecognized : Call  -- a line

-- How the program ends, or that the answers of `epoll_wait` given are over.
pub data Outcome : Type 0 where
  waiting : Outcome
  failed : Outcome

abbrev pub Result : Type 0
Result = List Call × Outcome

abbrev pub after : List Call → Result → Result
after calls r = (calls ++ r.0, r.1)

module _ (efd efd2 : ℕ) (deletes : (fd : ℕ) → Bool) where
  -- The loop over the events of one `epoll_wait`. `deletes` says whether EPOLL_CTL_DEL succeeds; `rest` is
  -- what comes afterwards.
  unfoldable pub handle_events : (fds : List ℕ) → (rest : Result) → Result
  handle_events [] rest = rest
  handle_events (fd ∷ fds) rest =
      let later = handle_events fds rest in
      if fd == efd
      then after (oom_at_child1 ∷ epoll_del efd ∷ []) (if deletes efd then later else ([], failed))
      else if fd == efd2
      then after (oom_at_child2 ∷ epoll_del efd2 ∷ [])
          (if deletes efd2 then later else ([], failed))
      else after (unrecognized ∷ []) later

  -- `while (1)`: each answer of `epoll_wait`, `none` for -1.
  unfoldable pub wait_loop : List (Option (List ℕ)) → Result
  wait_loop [] = ([], waiting)
  wait_loop (none ∷ answers) = ([], failed)
  wait_loop (some fds ∷ answers) = handle_events fds (wait_loop answers)

-- What the kernel answers up to the loop: `none` and `false` for -1. The results of `open` are not
-- checked.
pub record Setup : Type 0 where
  pub efd : Option ℕ
  pub efd2 : Option ℕ
  pub fd1 : ℤ
  pub fd2 : ℤ
  pub fd12 : ℤ
  pub fd22 : ℤ
  pub epoll_created : Bool
  pub added : Bool
  pub added2 : Bool

abbrev pub set_up :
    Setup → (efd efd2 : ℕ) → (deletes : (fd : ℕ) → Bool) → List (Option (List ℕ)) → Result
set_up s efd efd2 deletes answers =
    after (write_control s.fd2 efd s.fd1 ∷ write_control s.fd22 efd2 s.fd12 ∷ []) (
      if s.epoll_created
      then after (epoll_add efd ∷ []) (
          if s.added
          then after (epoll_add efd2 ∷ [])
              (if s.added2 then wait_loop efd efd2 deletes answers else ([], failed))
          else ([], failed))
      else ([], failed))

-- `main`, from the arguments after the program's name.
unfoldable pub monitoring_main :
    Setup → (deletes : (fd : ℕ) → Bool) → (args : List (List ℕ)) → List (Option (List ℕ)) → Result
monitoring_main s deletes (oom ∷ control ∷ oom2 ∷ control2 ∷ []) answers = elim s.efd [
  | none ↦ ([], failed)
  | some efd ↦ elim s.efd2 [ none ↦ ([], failed) | some efd2 ↦ set_up s efd efd2 deletes answers ]
]
monitoring_main s deletes _ answers = ([], failed)
