-- ===== src/E2e/Threads/Awake.antt =====
-- The first subtask of a task goes on as long as no wake-up of it is lost.
use cse522s.Base.{
  ℕ, zero, suc, ◌+◌, ◌≤◌, ◌<◌, ◌≡◌, ◌≢◌, refl, ◌∙◌, sym, ap, false, Option, none, some, List, [],
  ◌∷◌, length, Bool-cases, inl, inr, ◌⊎◌, ◌==◌, arith,
}
use cse522s.Base.{get_or}
use cse522s.E2e.{no_task, Table, task, subtask, parent}
use native.Mathlib.Decide.{ℕ_discrete}
use mathlib.Core.Path.{subst}
use cse522s.E2e.Run.{ms_to_ktime, Event, missed, wake, start_timer}
use cse522s.E2e.Init.{cal_timer_func, wake_tasks, indices}
use cse522s.E2e.Threads.{
  Phase, asleep, woken, working, starting, checking, calling, retiring, ended, State, update,
  wake_up, wake_thread, missed_wake, set_phase, perform, perform_calls, own_started,
  successor_calls, called, expired, begun, Step, release, finish, start_own, check, call, test,
  sleep, expire, begin, begin_exit, stop, Reaches, here, after,
}
use cse522s.E2e.Threads.Update.{update_at, update_ne}
use cse522s.E2e.Threads.Static.{IsLaidOut, Same-parent}
use cse522s.E2e.Threads.Aims.{last, period, AimsAt, Aimed}
use cse522s.E2e.Threads.Basic.{Basic, Reaches-Basic, still_loaded}
use cse522s.E2e.Threads.Count.{shift, timer_count}
use cse522s.E2e.Threads.First.{TimerSound}
use cse522s.E2e.Threads.Spacing.{Reaches-Sound}

-- The thread still comes to the start of its own timer.
abbrev up : Phase → ℕ
up woken = 1
up working = 1
up starting = 1
up _ = 0

abbrev alive : State → ℕ → ℕ
alive s k = up (s.phase k) + timer_count (s.timer k)

-- Unless a wake-up was lost.
abbrev Alive : State → ℕ → Type 0
Alive s k = s.lost k ≡ 0 → 1 ≤ alive s k

up-wake_up : (p : Phase) → missed_wake p ≡ 0 → up (wake_up p) ≡ 1
up-wake_up asleep e = refl
up-wake_up woken e = refl
up-wake_up working e = refl
up-wake_up starting e = refl
up-wake_up checking e = absurd (omega (arith, e))
up-wake_up (calling es) e = absurd (omega (arith, e))
up-wake_up retiring e = absurd (omega (arith, e))
up-wake_up ended e = absurd (omega (arith, e))

wake-Alive : (s : State) (i k : ℕ) → (k ≢ i → Alive s k) → Alive (wake_thread i s) k
wake-Alive s i k others none_lost = elim (ℕ_discrete k i) [
  | yes e ↦
      let lost : s.lost i + missed_wake (s.phase i) ≡ 0 =
        sym (update_at s.lost i (s.lost i + missed_wake (s.phase i)) k e) ∙ none_lost in
      omega (
        arith,
        ap up (update_at s.phase i (wake_up (s.phase i)) k e),
        up-wake_up (s.phase i) (omega (arith, lost)),
      )
  | no ne ↦ omega (
    arith,
    others ne (sym (update_ne s.lost i (s.lost i + missed_wake (s.phase i)) k ne) ∙ none_lost),
    ap up (update_ne s.phase i (wake_up (s.phase i)) k ne),
  )
]

-- A step of thread `i` that leaves its timer alone.
move-Alive :
    (s : State) (i : ℕ) (p q : Phase) (k : ℕ)
    → s.phase i ≡ p
    → up p ≤ up q
    → Alive s k
    → Alive (set_phase i q s) k
move-Alive s i p q k ph le h none_lost =
    ground (arith, h none_lost, shift up s.phase i p q k ph, le)

start_own-Alive :
    (s : State) (i k : ℕ)
    → (subtask s.table k).subtask_id ≡ 0
    → s.phase i ≡ starting
    → Alive s k
    → Alive (own_started i s) k
start_own-Alive s i k first ph h none_lost =
    let cur = subtask s.table i in
    let due = cur.last_release_time + ms_to_ktime (parent s.table cur).period in
    elim (Bool-cases (cur.subtask_id == 0)) [
      | inl on ↦ rw on (
          ground (
            arith,
            h none_lost,
            shift up s.phase i starting checking k ph,
            shift timer_count s.timer i (s.timer i) (some due) k refl,
            timer_count_le (s.timer i),
          ))
      | inr off ↦ rw off (
          ground (
            arith,
            h none_lost,
            off,
            first,
            ap (λ j. (subtask s.table j).subtask_id),
            shift up s.phase i starting checking k ph,
          ))
    ]
  where
    timer_count_le : (o : Option ℕ) → timer_count o ≤ 1
    timer_count_le none = omega arith
    timer_count_le (some e) = omega arith

call-Alive :
    (t : Table) (s : State) (i : ℕ) (e : Event) (es : List Event) (k : ℕ)
    → (subtask t k).subtask_id ≡ 0
    → s.phase i ≡ calling (e ∷ es)
    → AimsAt t (suc i) e
    → Alive s k
    → Alive (called i e es s) k
call-Alive t s i (missed a b) es k first ph aim h none_lost =
    move-Alive s i (calling (missed a b ∷ es)) (calling es) k ph (omega arith) h none_lost
call-Alive t s i (wake j) es k first ph aim h none_lost =
    wake-Alive (set_phase i (calling es) s) j k
      (λ ne. move-Alive s i (calling (wake j ∷ es)) (calling es) k ph (omega arith) h) none_lost
call-Alive t s i (start_timer j due) es k first ph aim h none_lost = ground (
  arith,
  move-Alive s i (calling (start_timer j due ∷ es)) (calling es) k ph (omega arith) h none_lost,
  shift timer_count s.timer j (s.timer j) (some due) k refl,
  ap (λ m. (subtask t m).subtask_id),
  aim,
  first,
)

expire-Alive : (s : State) (j now k : ℕ) → Alive s k → Alive (expired j now s) k
expire-Alive s j now k h =
    wake-Alive (record s { now = now; timer = update s.timer j none }) j k
      (λ ne none_lost. omega (arith, h none_lost, ap timer_count (update_ne s.timer j none k ne)))

-- The first timer wakes them all.
wake_tasks-Alive :
    (u : Table) (n i j : ℕ) (s : State)
    → j < i + n
    → (j < i → Alive s (task u j).subtask_start_idx)
    → Alive (perform_calls (wake_tasks u (indices n i)) s) (task u j).subtask_start_idx
unfolding wake_tasks perform_calls indices
wake_tasks-Alive u zero i j s lt h = h (omega (arith, lt))
wake_tasks-Alive u (suc n) i j s lt h =
    let k = (task u i).subtask_start_idx in
    let f = (task u j).subtask_start_idx in
    wake_tasks-Alive u n (suc i) j (wake_thread k s) (omega (arith, lt)) (λ le.
      wake-Alive s k f (λ ne. elim (ℕ_discrete j i) [
        | yes e ↦ absurd (ne (ap (λ m. (task u m).subtask_start_idx) e))
        | no other ↦ h (omega (arith, le, other))
      ]))

-- After the first timer, the first subtasks of all tasks.
abbrev AllAlive : Table → State → Type 0
AllAlive t s =
    s.cal_timer ≡ false → (j : ℕ) → j < length t.tasks → Alive s (task t j).subtask_start_idx

perform-cal_timer : (s : State) (e : Event) → (perform e s).cal_timer ≡ s.cal_timer
perform-cal_timer s (missed a b) = refl
perform-cal_timer s (wake k) = refl
perform-cal_timer s (start_timer k e) = refl

step-Alive :
    {t : Table} {s u : State}
    → IsLaidOut t
    → Basic t s
    → Step s u
    → u.unloading ≡ false
    → AllAlive t s
    → AllAlive t u
unfolding cal_timer_func
step-Alive {t} {s} out b (release i now lt ph le) off alive on j in_range =
    move-Alive s i woken working (task t j).subtask_start_idx ph (omega arith) (alive on j in_range)
step-Alive {t} {s} out b (finish i now lt ph le) off alive on j in_range =
    move-Alive s i working starting (task t j).subtask_start_idx ph (omega arith)
      (alive on j in_range)
step-Alive {t} {s} out b (start_own i lt ph) off alive on j in_range =
    let k = (task t j).subtask_start_idx in
    start_own-Alive s i k ((b.same.ids k).1 ∙ out.first j in_range) ph (alive on j in_range)
step-Alive {t} {s} out b (check i now lt ph le) off alive on j in_range =
    move-Alive s i checking (calling (successor_calls s.table i now)) (task t j).subtask_start_idx
      ph (omega arith) (alive on j in_range)
step-Alive {t} {s} out b (call i e es ph) off alive on j in_range =
    call-Alive t s i e es (task t j).subtask_start_idx (out.first j in_range) ph
      (subst (Aimed t i) ph (b.aimed i)).0.0
      (alive (sym (perform-cal_timer (set_phase i (calling es) s) e) ∙ on) j in_range)
step-Alive {t} {s} out b (test i ph) off alive on j in_range = elim (Bool-cases (s.stopped i)) [
  | inl h ↦ rw h (
      move-Alive s i (calling []) ended (task t j).subtask_start_idx ph (omega arith)
        (alive on j in_range))
  | inr h ↦ rw h (
      move-Alive s i (calling []) retiring (task t j).subtask_start_idx ph (omega arith)
        (alive on j in_range))
]
step-Alive {t} {s} out b (sleep i ph) off alive on j in_range =
    move-Alive s i retiring asleep (task t j).subtask_start_idx ph (omega arith)
      (alive on j in_range)
step-Alive {t} {s} out b (expire k e now due le now_le) off alive on j in_range =
    expire-Alive s k now (task t j).subtask_start_idx (alive on j in_range)
step-Alive {t} {s} out b (begin now started le) off alive on j in_range =
    let base : State = record s { now = now; cal_timer = false } in
    subst (λ ts. Alive (begun now s) (get_or ts j no_task).subtask_start_idx) b.same.tasks
      (wake_tasks-Alive s.table (length s.table.tasks) 0 j base
        (omega (arith, in_range, ap length b.same.tasks)) (λ lt. absurd (omega (arith, lt))))
step-Alive out b begin_exit off alive on j in_range = absurd (ground (arith, off))
step-Alive out b (stop k begun) off alive on j in_range = absurd (ground (arith, begun, off))

Reaches-Alive :
    {t : Table} {s : State} → IsLaidOut t → Reaches t s → s.unloading ≡ false → AllAlive t s
Reaches-Alive out (here pos) off on = absurd (ground (arith, on))
Reaches-Alive out (after r x) off on =
    let loaded = still_loaded x off in
    step-Alive out (Reaches-Basic out r loaded) x off (Reaches-Alive out r loaded) on

alive-cases :
    (p : Phase) (o : Option ℕ) (last period : ℕ)
    → TimerSound last period o
    → 1 ≤ up p + timer_count o
    → (p ≡ woken) ⊎ ((p ≡ working) ⊎ ((p ≡ starting) ⊎ (o ≡ some (last + period))))
alive-cases p (some e) last period sound h = inr (inr (inr (ap some sound.1)))
alive-cases woken none last period sound h = inl refl
alive-cases working none last period sound h = inr (inl refl)
alive-cases starting none last period sound h = inr (inr (inl refl))
alive-cases asleep none last period sound h = absurd (omega (arith, h))
alive-cases checking none last period sound h = absurd (omega (arith, h))
alive-cases (calling es) none last period sound h = absurd (omega (arith, h))
alive-cases retiring none last period sound h = absurd (omega (arith, h))
alive-cases ended none last period sound h = absurd (omega (arith, h))

-- In every reachable state of a laid-out table after the first timer and until the module is unloaded,
-- the first subtask of each task is woken, at work, or about to start its timer, or its timer is started
-- for exactly one period after its last release, if each wake-up of it found it asleep.
pub Reaches-awake :
    {t : Table} {s : State}
    → IsLaidOut t
    → Reaches t s
    → s.unloading ≡ false
    → s.cal_timer ≡ false
    → (j : ℕ) → j < length t.tasks
    → s.lost (task t j).subtask_start_idx ≡ 0
    → (s.phase (task t j).subtask_start_idx ≡ woken)
      ⊎ ((s.phase (task t j).subtask_start_idx ≡ working)
          ⊎ ((s.phase (task t j).subtask_start_idx ≡ starting)
              ⊎ (s.timer (task t j).subtask_start_idx
                  ≡ some (
                      last s.table (task t j).subtask_start_idx
                      + period t (task t j).subtask_start_idx))))
Reaches-awake {t} {s} out r off on j lt none_lost =
    let k = (task t j).subtask_start_idx in
    alive-cases (s.phase k) (s.timer k) (last s.table k) (period t k)
      (subst (λ p. TimerSound (last s.table k) (ms_to_ktime p.period) (s.timer k))
        (Same-parent (Reaches-Basic out r off).same k)
        (Reaches-Sound out r off k (out.first j lt)).0)
      (Reaches-Alive out r off on j lt none_lost)
