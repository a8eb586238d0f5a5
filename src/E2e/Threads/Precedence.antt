-- ===== src/E2e/Threads/Precedence.antt =====
-- Until the unloading, a subtask is released no more often than its predecessor has finished.
use cse522s.Base.{
  ℕ, zero, suc, ◌+◌, ◌≤◌, ◌<◌, ◌≡◌, refl, ap, false, none, some, List, [], ◌∷◌, length, All,
  Bool-cases, inl, inr, ◌==◌, arith,
}
use cse522s.E2e.{Table, task, subtask, parent}
use mathlib.Core.Path.{subst}
use cse522s.E2e.Run.{ms_to_ktime, Event, missed, wake, start_timer}
use cse522s.E2e.Init.{cal_timer_func, wake_tasks, indices}
use cse522s.E2e.Threads.{
  Phase, asleep, woken, working, starting, checking, calling, retiring, ended, State, update,
  wake_thread, set_phase, perform_calls, released, finished, own_started, successor_calls, called,
  expired, Step, release, finish, start_own, check, call, test, sleep, expire, begin, begin_exit,
  stop, Reaches, here, after,
}
use cse522s.E2e.Threads.Static.{IsLaidOut, Same, Same-IsLaidOut}
use cse522s.E2e.Threads.Aims.{AimsAt, Aimed, successor_calls-Aimed}
use cse522s.E2e.Threads.Basic.{Basic, Reaches-Basic, still_loaded}
use cse522s.E2e.Threads.Count.{
  shift, increase, woken_count, working_count, timer_count, requests, requests-le, owed, woken-wake,
  working-wake, owed-wake,
}

-- Subtask `k` has a predecessor in its task.
abbrev pub Follows : Table → ℕ → Type 0
Follows t k = 0 < (subtask t k).subtask_id

-- Every round that was begun has finished or is at work.
abbrev Balanced : State → ℕ → Type 0
Balanced s k = s.releases k ≡ s.finishes k + working_count (s.phase k)

-- The releases of the subtask behind `k`, with those that its thread, its timer and the thread of `k`
-- have still to make, are at most the finished rounds of `k`.
abbrev Led : State → ℕ → Type 0
Led s k =
    s.releases (suc k)
      + woken_count (s.phase (suc k))
      + timer_count (s.timer (suc k))
      + owed (suc k) (s.phase k)
    ≤ s.finishes k

abbrev Ordered : Table → State → Type 0
Ordered t s = (k : ℕ) → Balanced s k × (Follows t (suc k) → Led s k)

module _ (t : Table) (s : State) (ordered : Ordered t s) where
  release-Ordered : (i time : ℕ) → s.phase i ≡ woken → Ordered t (released i time s)
  unfolding owed
  release-Ordered i time ph k = (
    ground (
      arith,
      (ordered k).0,
      shift working_count s.phase i woken working k ph,
      increase s.releases i k,
    ),
    λ f. ground (
      arith,
      (ordered k).1 f,
      shift woken_count s.phase i woken working (suc k) ph,
      shift (owed (suc k)) s.phase i woken working k ph,
      increase s.releases i (suc k),
    ),
  )

  finish-Ordered : (i time : ℕ) → s.phase i ≡ working → Ordered t (finished i time s)
  unfolding owed
  finish-Ordered i time ph k = (
    ground (
      arith,
      (ordered k).0,
      shift working_count s.phase i working starting k ph,
      increase s.finishes i k,
    ),
    λ f. ground (
      arith,
      (ordered k).1 f,
      shift woken_count s.phase i working starting (suc k) ph,
      shift (owed (suc k)) s.phase i working starting k ph,
      increase s.finishes i k,
    ),
  )

  -- A step of thread `i` that neither begins nor ends work.
  move-Ordered :
      (i : ℕ) (p q : Phase)
      → s.phase i ≡ p
      → working_count p ≡ 0
      → working_count q ≡ 0
      → woken_count q ≤ woken_count p
      → owed (suc i) q ≤ owed (suc i) p
      → Ordered t (set_phase i q s)
  move-Ordered i p q ph e e' le owes k = (
    ground (arith, (ordered k).0, shift working_count s.phase i p q k ph, e, e'),
    λ f. ground (
      arith,
      (ordered k).1 f,
      le,
      shift woken_count s.phase i p q (suc k) ph,
      shift (owed (suc k)) s.phase i p q k ph,
      owes,
      ap (λ j. owed (suc j) q),
      ap (λ j. owed (suc j) p),
    ),
  )

  -- What a call takes off what the thread owes, it adds to what its successor has still to do.
  call-Ordered :
      (i : ℕ) (e : Event) (es : List Event)
      → s.phase i ≡ calling (e ∷ es)
      → All (AimsAt t (suc i)) (e ∷ es)
      → Ordered t (called i e es s)
  unfolding owed requests
  call-Ordered i (missed a b) es ph aim k =
      move-Ordered i (calling (missed a b ∷ es)) (calling es) ph refl refl (omega arith)
        (omega arith) k
  call-Ordered i (wake j) es ph aim k =
      let base = set_phase i (calling es) s in
      let p = calling (wake j ∷ es) in
      (
        ground (
          arith,
          (ordered k).0,
          shift working_count s.phase i p (calling es) k ph,
          working-wake base j k,
        ),
        λ f. ground (
          arith,
          (ordered k).1 f,
          shift woken_count s.phase i p (calling es) (suc k) ph,
          shift (owed (suc k)) s.phase i p (calling es) k ph,
          woken-wake base j (suc k),
          owed-wake base j k (suc k),
          aim.0.0,
        ),
      )
  call-Ordered i (start_timer j due) es ph aim k =
      let p = calling (start_timer j due ∷ es) in
      (
        ground (arith, (ordered k).0, shift working_count s.phase i p (calling es) k ph),
        λ f. ground (
          arith,
          (ordered k).1 f,
          shift woken_count s.phase i p (calling es) (suc k) ph,
          shift (owed (suc k)) s.phase i p (calling es) k ph,
          shift timer_count s.timer j (s.timer j) (some due) (suc k) refl,
          aim.0.0,
        ),
      )

  expire-Ordered : (j e time : ℕ) → s.timer j ≡ some e → Ordered t (expired j time s)
  expire-Ordered j e time due k =
      let base : State = record s { now = time; timer = update s.timer j none } in
      (
        ground (arith, (ordered k).0, working-wake base j k),
        λ f. ground (
          arith,
          (ordered k).1 f,
          woken-wake base j (suc k),
          owed-wake base j k (suc k),
          shift timer_count s.timer j (some e) none (suc k) due,
        ),
      )

  -- Waking a subtask that has no predecessor.
  wake-Ordered : (i : ℕ) → (subtask t i).subtask_id ≡ 0 → Ordered t (wake_thread i s)
  wake-Ordered i first k = (
    ground (arith, (ordered k).0, working-wake s i k),
    λ f. ground (
      arith,
      (ordered k).1 f,
      f,
      first,
      ap (λ j. (subtask t j).subtask_id),
      woken-wake s i (suc k),
      owed-wake s i k (suc k),
    ),
  )

  start_own-Ordered : (i : ℕ) → Same t s.table → s.phase i ≡ starting → Ordered t (own_started i s)
  unfolding owed
  start_own-Ordered i same ph k =
      let moved = move-Ordered i starting checking ph refl refl (omega arith) (omega arith) k in
      let cur = subtask s.table i in
      (
        moved.0,
        λ f. elim (Bool-cases (cur.subtask_id == 0)) [
          | inl h ↦ rw h (
              ground (
                arith,
                moved.1 f,
                f,
                h,
                (same.ids i).1,
                ap (λ j. (subtask t j).subtask_id),
                shift timer_count s.timer i (s.timer i)
                    (some (cur.last_release_time + ms_to_ktime (parent s.table cur).period)) (suc k)
                    refl,
              ))
          | inr h ↦ rw h (moved.1 f)
        ],
      )

indices-below : (n i m : ℕ) → i + n ≡ m → All (λ j. j < m) (indices n i)
unfolding indices
indices-below zero i m e = tt
indices-below (suc n) i m e = (omega (arith, e), indices-below n (suc i) m (omega (arith, e)))

wake_tasks-Ordered :
    (t u : Table) (is : List ℕ) (s : State)
    → IsLaidOut u
    → Same t u
    → All (λ j. j < length u.tasks) is
    → Ordered t s
    → Ordered t (perform_calls (wake_tasks u is) s)
unfolding wake_tasks perform_calls
wake_tasks-Ordered t u [] s out same below ordered = ordered
wake_tasks-Ordered t u (j ∷ is) s out same (lt, below) ordered =
    let i = (task u j).subtask_start_idx in
    wake_tasks-Ordered t u is (wake_thread i s) out same below
      (wake-Ordered t s ordered i (omega (arith, out.first j lt, (same.ids i).1)))

step-Ordered :
    {t : Table} {s u : State}
    → IsLaidOut t
    → Basic t s
    → Step s u
    → u.unloading ≡ false
    → Ordered t s
    → Ordered t u
unfolding cal_timer_func owed
step-Ordered {t} {s} out b (release i time lt ph le) off o = release-Ordered t s o i time ph
step-Ordered {t} {s} out b (finish i time lt ph le) off o = finish-Ordered t s o i time ph
step-Ordered {t} {s} out b (start_own i lt ph) off o = start_own-Ordered t s o i b.same ph
step-Ordered {t} {s} out b (check i time lt ph le) off o =
    let es = successor_calls s.table i time in
    let aim = successor_calls-Aimed out b.same i time lt in
    move-Ordered t s o i checking (calling es) ph refl refl (omega arith)
      (omega (arith, aim.1, requests-le (suc i) es))
step-Ordered {t} {s} out b (call i e es ph) off o =
    call-Ordered t s o i e es ph (subst (Aimed t i) ph (b.aimed i)).0
step-Ordered {t} {s} out b (test i ph) off o = elim (Bool-cases (s.stopped i)) [
  | inl h ↦ rw h (move-Ordered t s o i (calling []) ended ph refl refl (omega arith) (omega arith))
  | inr h ↦
      rw h (move-Ordered t s o i (calling []) retiring ph refl refl (omega arith) (omega arith))
]
step-Ordered {t} {s} out b (sleep i ph) off o =
    move-Ordered t s o i retiring asleep ph refl refl (omega arith) (omega arith)
step-Ordered {t} {s} out b (expire k e time due le now_le) off o = expire-Ordered t s o k e time due
step-Ordered {t} {s} out b (begin time on le) off o =
    wake_tasks-Ordered t s.table (indices (length s.table.tasks) 0)
      (record s { now = time; cal_timer = false }) (Same-IsLaidOut b.same out) b.same
      (indices-below (length s.table.tasks) 0 (length s.table.tasks) (omega arith)) o
step-Ordered out b begin_exit off o = o
step-Ordered out b (stop k on) off o = absurd (ground (arith, on, off))

Reaches-Ordered :
    {t : Table} {s : State} → IsLaidOut t → Reaches t s → s.unloading ≡ false → Ordered t s
unfolding owed requests
Reaches-Ordered out (here pos) off k = (refl, λ f. omega arith)
Reaches-Ordered out (after r x) off k =
    let loaded = still_loaded x off in
    step-Ordered out (Reaches-Basic out r loaded) x off (Reaches-Ordered out r loaded) k

-- In every reachable state of a laid-out table, until the module is unloaded, a subtask that is not the
-- first of its task has been released no more often than its predecessor has finished, and the
-- predecessor has finished no more often than it has been released.
pub Reaches-precedence :
    {t : Table} {s : State}
    → IsLaidOut t
    → Reaches t s
    → s.unloading ≡ false
    → (k : ℕ) → Follows t (suc k)
    → (s.releases (suc k) ≤ s.finishes k) × (s.finishes k ≤ s.releases k)
Reaches-precedence out r off k follows =
    let (balanced, led) = Reaches-Ordered out r off k in
    (omega (arith, led follows), omega (arith, balanced))
