-- ===== src/E2e/Threads/Aims.antt =====
-- At which subtasks the calls of a thread aim.
use cse522s.Base.{
  ℕ, suc, ◌+◌, ◌≤◌, ◌<◌, ◌≡◌, refl, ap, List, [], ◌∷◌, length, All, Bool-cases, inl, inr, ltb,
  arith,
}
use cse522s.E2e.{Table, task, subtask, parent}
use cse522s.E2e.Run.{Event, missed, wake, start_timer, ms_to_ktime, release_successor, last_id}
use cse522s.E2e.Init.{wake_tasks}
use cse522s.E2e.Threads.{
  Phase, asleep, woken, working, starting, checking, calling, retiring, ended, State, update,
  wake_up, wake_thread, perform, perform_calls, successor_calls,
}
use cse522s.E2e.Threads.Update.{update_all}
use cse522s.E2e.Threads.Static.{
  IsLaidOut, Same, Same-IsLaidOut, last_id_lem, successor_lem, next-parent,
}

-- When subtask `k` was last released, and how long its period is; in nanoseconds.
abbrev pub last : Table → ℕ → ℕ
last t k = (subtask t k).last_release_time

abbrev pub period : Table → ℕ → ℕ
period t k = ms_to_ktime (parent t (subtask t k)).period

-- The call is for subtask `k`, which has a predecessor.
abbrev pub AimsAt : Table → ℕ → Event → Type 0
AimsAt t k (missed a b) = Unit
AimsAt t k (wake j) = (j ≡ k) × (0 < (subtask t k).subtask_id)
AimsAt t k (start_timer j e) = (j ≡ k) × (0 < (subtask t k).subtask_id)

-- A thread decides on one call at most, for the next subtask.
abbrev pub Aimed : Table → ℕ → Phase → Type 0
Aimed t j (calling es) = All (AimsAt t (suc j)) es × (length es ≤ 1)
Aimed t j p = Unit

Aimed-wake_up : (t : Table) (j : ℕ) (p : Phase) → Aimed t j p → Aimed t j (wake_up p)
Aimed-wake_up t j asleep h = tt
Aimed-wake_up t j woken h = tt
Aimed-wake_up t j working h = tt
Aimed-wake_up t j starting h = tt
Aimed-wake_up t j checking h = tt
Aimed-wake_up t j (calling es) h = h
Aimed-wake_up t j retiring h = tt
Aimed-wake_up t j ended h = tt

pub Aimed-update :
    (t : Table) (f : ℕ → Phase) (i : ℕ) (p : Phase)
    → Aimed t i p
    → ((k : ℕ) → Aimed t k (f k))
    → (k : ℕ) → Aimed t k (update f i p k)
Aimed-update t f i p at all = update_all (λ k q. Aimed t k q) f i p at (λ k ne. all k)

pub Aimed-wake :
    (t : Table) (s : State) (i : ℕ)
    → ((k : ℕ) → Aimed t k (s.phase k))
    → (k : ℕ) → Aimed t k ((wake_thread i s).phase k)
Aimed-wake t s i all =
    Aimed-update t s.phase i (wake_up (s.phase i)) (Aimed-wake_up t i (s.phase i) (all i)) all

Aimed-perform :
    (t : Table) (s : State) (e : Event)
    → ((k : ℕ) → Aimed t k (s.phase k))
    → (k : ℕ) → Aimed t k ((perform e s).phase k)
Aimed-perform t s (missed a b) all = all
Aimed-perform t s (wake i) all = Aimed-wake t s i all
Aimed-perform t s (start_timer i e) all = all

-- The subtask behind one that is not the last of its task has a predecessor.
follower_id :
    {t : Table} (out : IsLaidOut t) (i : ℕ)
    → i < length t.subtasks
    → (subtask t i).subtask_id + 1 < (parent t (subtask t i)).subtask_count
    → 0 < (subtask t (suc i)).subtask_id
follower_id {t} out i lt more = omega (
  arith,
  out.place i lt,
  out.place (suc i) (out.next i lt more).0,
  ap (λ p. p.subtask_start_idx) (next-parent out i lt more),
)

-- The call that a thread decides on.
pub successor_calls-Aimed :
    {t₀ t : Table}
    → IsLaidOut t₀
    → Same t₀ t
    → (i now : ℕ) → i < length t.subtasks
    → Aimed t₀ i (calling (successor_calls t i now))
unfolding successor_calls release_successor
successor_calls-Aimed {t₀} {t} out same i now lt =
    let laid = Same-IsLaidOut same out in
    let cur = subtask t i in
    elim (Bool-cases (ltb cur.subtask_id (last_id (parent t cur)))) [
      | inl h ↦
          let more : cur.subtask_id + 1 < (parent t cur).subtask_count =
            ground (arith, last_id_lem laid i lt, h) in
          let id : 0 < (subtask t₀ (suc i)).subtask_id =
            omega (arith, follower_id laid i lt more, (same.ids (suc i)).1) in
          rw (h, successor_lem laid i lt more) (ground (arith, id))
      | inr h ↦ rw h (tt, omega arith)
    ]

-- The first timer's calls change phases and `lost` only.
abbrev pub Kept : State → State → Type 0
Kept s u =
    (u.now ≡ s.now)
    × (u.table ≡ s.table)
    × (u.timer ≡ s.timer)
    × (u.cal_timer ≡ s.cal_timer)
    × (u.unloading ≡ s.unloading)
    × (u.releases ≡ s.releases)
    × (u.finishes ≡ s.finishes)

pub wake_tasks-Kept :
    (t : Table) (is : List ℕ) (s : State) → Kept s (perform_calls (wake_tasks t is) s)
unfolding wake_tasks perform_calls
wake_tasks-Kept t [] s = (refl, refl, refl, refl, refl, refl, refl)
wake_tasks-Kept t (i ∷ is) s = wake_tasks-Kept t is (wake_thread (task t i).subtask_start_idx s)

pub wake_tasks-Aimed :
    (t₀ t : Table) (is : List ℕ) (s : State)
    → ((k : ℕ) → Aimed t₀ k (s.phase k))
    → (k : ℕ) → Aimed t₀ k ((perform_calls (wake_tasks t is) s).phase k)
unfolding wake_tasks perform_calls
wake_tasks-Aimed t₀ t [] s all = all
wake_tasks-Aimed t₀ t (i ∷ is) s all =
    let k = (task t i).subtask_start_idx in
    wake_tasks-Aimed t₀ t is (wake_thread k s) (Aimed-wake t₀ s k all)
