-- ===== src/SharedMemory.antt =====
-- studio5/leader.c, follewer.c and shared_memory.h: two processes on one shared region, as steps that
-- interleave freely. A wait on a guard has no step while the guard is 0.
pub mod Safety
pub mod Progress
mod Tests
use cse522s.Base.{
  ℕ, zero, suc, ◌+◌, ◌<◌, ◌≡◌, Bool, true, false, not, ◌&&◌, Option, none, some, ltb, ◌==◌,
  if◌then◌else◌,
}

-- `SHARED_MEM_SIZE`
abbrev pub shared_mem_size : ℕ
shared_mem_size = 10

-- Where the leader is: each access to the region is one step, and the check reads all guards in one.
pub data Leader : Type 0 where
  check : Leader  -- the test that all guards are 0
  clear_delete : Leader  -- the three stores of the chained assignment, from the right
  clear_write : Leader
  clear_read : Leader
  wait_follower : Leader
  write : (i : ℕ) → Leader  -- `memcpy`, before cell `i`
  notify : Leader
  wait_read : Leader
  destroyed : Leader  -- the region is unmapped and unlinked
  refused : Leader  -- `exit(-1)` after the check

pub data Follower : Type 0 where
  announce : Follower
  wait_write : Follower
  read : (i : ℕ) → Follower  -- `memcpy`, before cell `i`
  finish : Follower
  left : Follower

-- The region, the follower's array, and the two processes.
pub record State : Type 0 where
  pub write_guard : ℕ
  pub read_guard : ℕ
  pub delete_guard : ℕ
  pub data_at : ℕ → ℕ
  pub array : ℕ → ℕ
  pub leader : Leader
  pub follower : Follower

abbrev pub update : (ℕ → ℕ) → ℕ → ℕ → ℕ → ℕ
update f i v k = if k == i then v else f k

-- The region as `ftruncate` leaves it, mapped by both.
abbrev pub fresh : State
fresh = record {
  write_guard = 0;
  read_guard = 0;
  delete_guard = 0;
  data_at = λ i. 0;
  array = λ i. 0;
  leader = check;
  follower = announce;
}

-- The leader's next step, where `values i` is the `i`-th result of `rand`. `none`: it waits or has
-- ended.
abbrev pub leader_at : (values : ℕ → ℕ) → Leader → State → Option State
leader_at values check s =
    if (s.read_guard == 0) && ((s.write_guard == 0) && (s.delete_guard == 0))
    then some (record s { leader = clear_delete })
    else some (record s { leader = refused })
leader_at values clear_delete s = some (record s { delete_guard = 0; leader = clear_write })
leader_at values clear_write s = some (record s { write_guard = 0; leader = clear_read })
leader_at values clear_read s = some (record s { read_guard = 0; leader = wait_follower })
leader_at values wait_follower s =
    if s.write_guard == 0 then none else some (record s { leader = write 0 })
leader_at values (write i) s =
    if ltb i shared_mem_size
    then some (record s { data_at = update s.data_at i (values i); leader = write (suc i) })
    else some (record s { leader = notify })
leader_at values notify s = some (record s { read_guard = 1; leader = wait_read })
leader_at values wait_read s =
    if s.delete_guard == 0 then none else some (record s { leader = destroyed })
leader_at values destroyed s = none
leader_at values refused s = none

pub leader_step : (values : ℕ → ℕ) → State → Option State
leader_step values s = leader_at values s.leader s

abbrev pub follower_at : Follower → State → Option State
follower_at announce s = some (record s { write_guard = 1; follower = wait_write })
follower_at wait_write s = if s.read_guard == 0 then none else some (record s { follower = read 0 })
follower_at (read i) s =
    if ltb i shared_mem_size
    then some (record s { array = update s.array i (s.data_at i); follower = read (suc i) })
    else some (record s { follower = finish })
follower_at finish s = some (record s { delete_guard = 1; follower = left })
follower_at left s = none

pub follower_step : State → Option State
follower_step s = follower_at s.follower s

-- The states that the two programs reach from `s` in some interleaving.
pub data Reaches (values : ℕ → ℕ) (s : State) : State → Type 0 where
  here : Reaches values s s
  by_leader :
      {t u : State} → Reaches values s t → leader_step values t ≡ some u → Reaches values s u
  by_follower : {t u : State} → Reaches values s t → follower_step t ≡ some u → Reaches values s u

-- How a program gets to the region: `none` is `exit(-1)`, at the first call that fails. The leader opens
-- the region, sets its size and maps it; the follower opens and maps it.
abbrev pub leader_start : (opened truncated mapped : Bool) → Option Leader
leader_start opened truncated mapped =
    if not opened
    then none
    else if not truncated
    then none
    else if not mapped
    then none
    else some check

abbrev pub follower_start : (opened mapped : Bool) → Option Follower
follower_start opened mapped =
    if not opened then none else if not mapped then none else some announce
