-- ===== src/E2e/Threads/Spacing.antt =====
-- Until the unloading, the first subtask of a task is released no more often than its period allows.
use cse522s.Base.{
  ℕ, suc, ◌+◌, ◌≤◌, ◌<◌, ◌≡◌, refl, ◌∙◌, sym, ap, false, none, some, List, [], ◌∷◌, length,
  Bool-cases, inl, inr, ◌⊎◌, arith,
}
use cse522s.E2e.{Table, task, subtask}
use native.Mathlib.Decide.{ℕ_discrete}
use mathlib.Core.Path.{subst}
use cse522s.E2e.Run.{ms_to_ktime, Event, missed, wake, start_timer}
use cse522s.E2e.Init.{cal_timer_func, wake_tasks, indices}
use cse522s.E2e.Threads.{
  asleep, woken, working, starting, checking, calling, retiring, ended, State, update, wake_up,
  wake_thread, perform_calls, released, successor_calls, called, expired, Step, release, finish,
  start_own, check, call, test, sleep, expire, begin, begin_exit, stop, Reaches, here, after,
}
use cse522s.E2e.Threads.Update.{update_at, update_ne}
use cse522s.E2e.Threads.Static.{IsLaidOut, Same, Same-parent}
use cse522s.E2e.Threads.Aims.{last, period, Aimed, wake_tasks-Kept}
use cse522s.E2e.Threads.Basic.{Basic, Reaches-Basic, still_loaded}
use cse522s.E2e.Threads.First.{
  TimerSound, PhaseSound, Sound, AllSound, last_at, last_ne, move-Sound, wake-Sound, release-Sound,
  start_own-Sound, call-Sound, forget-Sound, later-Sound,
}

wake_tasks-Sound :
    (t u : Table) (is : List ℕ) (s : State)
    → ((k : ℕ) → last s.table k ≡ 0)
    → ((k : ℕ) → s.timer k ≡ none)
    → AllSound t s
    → AllSound t (perform_calls (wake_tasks u is) s)
unfolding wake_tasks perform_calls
wake_tasks-Sound t u [] s zeros no_timer sound = sound
wake_tasks-Sound t u (j ∷ is) s zeros no_timer sound =
    let i = (task u j).subtask_start_idx in
    wake_tasks-Sound t u is (wake_thread i s) zeros no_timer
      (wake-Sound t s sound i (inl (zeros i)) (no_timer i))

expire-Sound :
    (t : Table) (s : State) (k e now : ℕ)
    → AllSound t s
    → s.timer k ≡ some e
    → e ≤ now
    → s.now ≤ now
    → AllSound t (expired k now s)
expire-Sound t s k e now sound due le now_le = elim (ℕ_discrete 0 (subtask t k).subtask_id) [
  | yes first ↦
      let was =
        subst (TimerSound (last s.table k) (period s.table k)) due (sound k (sym first)).0 in
      wake-Sound t (record s { now = now; timer = update s.timer k none })
        (forget-Sound t s sound k now now_le) k (inr (omega (arith, was, le)))
        (update_at s.timer k none k refl)
  | no ne ↦ λ j first.
      let base : State = record s { now = now; timer = update s.timer k none } in
      rw
        (update_ne s.phase k (wake_up (s.phase k)) j
          (λ e. ne (sym first ∙ ap (λ m. (subtask t m).subtask_id) e)))
        (forget-Sound t s sound k now now_le j first)
]

step-Sound :
    {t : Table} {s u : State}
    → Basic t s
    → Step s u
    → u.unloading ≡ false
    → AllSound t s
    → AllSound t u
unfolding cal_timer_func
step-Sound {t} {s} b (release i now lt ph le) off sound =
    release-Sound t s sound i now lt ph le (omega (arith, b.clock, le))
step-Sound {t} {s} b (finish i now lt ph le) off sound =
    move-Sound t s sound i now working starting ph le (λ l d o h. h)
step-Sound {t} {s} b (start_own i lt ph) off sound = start_own-Sound t s sound i b.same ph
step-Sound {t} {s} b (check i now lt ph le) off sound =
    move-Sound t s sound i now checking (calling (successor_calls s.table i now)) ph le
      (λ l d o h. tt)
step-Sound {t} {s} b (call i e es ph) off sound =
    call-Sound t s sound i e es ph (subst (Aimed t i) ph (b.aimed i)).0.0
step-Sound {t} {s} b (test i ph) off sound = elim (Bool-cases (s.stopped i)) [
  | inl h ↦ rw h (move-Sound t s sound i s.now (calling []) ended ph (omega arith) (λ l d o h. tt))
  | inr h ↦
      rw h (move-Sound t s sound i s.now (calling []) retiring ph (omega arith) (λ l d o h. tt))
]
step-Sound {t} {s} b (sleep i ph) off sound =
    move-Sound t s sound i s.now retiring asleep ph (omega arith) (λ l d o h. tt)
step-Sound {t} {s} b (expire k e now due le now_le) off sound =
    expire-Sound t s k e now sound due le now_le
step-Sound {t} {s} b (begin now on le) off sound =
    wake_tasks-Sound t s.table (indices (length s.table.tasks) 0)
      (record s { now = now; cal_timer = false }) (λ k. (b.quiet on k).0) (λ k. (b.quiet on k).2)
      (later-Sound t s sound now le)
step-Sound b begin_exit off sound = sound
step-Sound b (stop k on) off sound = absurd (ground (arith, on, off))

pub Reaches-Sound :
    {t : Table} {s : State} → IsLaidOut t → Reaches t s → s.unloading ≡ false → AllSound t s
Reaches-Sound out (here pos) off k first = (tt, tt)
Reaches-Sound out (after r x) off k first =
    let loaded = still_loaded x off in
    step-Sound (Reaches-Basic out r loaded) x off (Reaches-Sound out r loaded) k first

-- What a step does to the release count and time of subtask `k`.
abbrev pub Spaced : (period : ℕ) → State → State → ℕ → Type 0
Spaced period s u k =
    ((u.releases k ≡ s.releases k) × (last u.table k ≡ last s.table k))
    ⊎ ((u.releases k ≡ suc (s.releases k))
        × ((last s.table k ≡ 0) ⊎ (last s.table k + period ≤ last u.table k)))

release-Spaced :
    {t₀ : Table} (s : State) (i now k : ℕ)
    → Same t₀ s.table
    → Sound s k
    → i < length s.table.subtasks
    → s.phase i ≡ woken
    → s.now ≤ now
    → Spaced (period t₀ k) s (released i now s) k
release-Spaced {t₀} s i now k same sound lt ph le = elim (ℕ_discrete k i) [
  | yes e ↦
      let was =
        subst (PhaseSound s.now (last s.table k) (period s.table k) (s.timer k)) (ap s.phase e ∙ ph)
          sound.1 in
      inr (
        update_at s.releases i (suc (s.releases i)) k e ∙ ap (λ j. suc (s.releases j)) (sym e),
        ground (
          arith,
          was.0,
          le,
          last_at s.table i now k lt e,
          ap (λ p. ms_to_ktime p.period) (Same-parent same k),
        ),
      )
  | no ne ↦ inl (update_ne s.releases i (suc (s.releases i)) k ne, last_ne s.table i now k lt ne)
]

call-Spaced :
    (s : State) (i : ℕ) (e : Event) (es : List Event) (k d : ℕ) → Spaced d s (called i e es s) k
call-Spaced s i (missed a b) es k d = inl (refl, refl)
call-Spaced s i (wake j) es k d = inl (refl, refl)
call-Spaced s i (start_timer j due) es k d = inl (refl, refl)

-- In every reachable state of a laid-out table, until the module is unloaded, each step releases the
-- first subtask `k` of a task at most once, and if it has been released before, not before one period
-- after that.
pub Step-Spaced :
    {t : Table} {s u : State}
    → IsLaidOut t
    → Reaches t s
    → s.unloading ≡ false
    → Step s u
    → (k : ℕ) → (subtask t k).subtask_id ≡ 0
    → Spaced (period t k) s u k
unfolding cal_timer_func
Step-Spaced {s = s} out r off (release i now lt ph le) k first =
    release-Spaced s i now k (Reaches-Basic out r off).same (Reaches-Sound out r off k first) lt ph
      le
Step-Spaced out r off (finish i now lt ph le) k first = inl (refl, refl)
Step-Spaced out r off (start_own i lt ph) k first = inl (refl, refl)
Step-Spaced out r off (check i now lt ph le) k first = inl (refl, refl)
Step-Spaced {t} {s} out r off (call i e es ph) k first = call-Spaced s i e es k (period t k)
Step-Spaced out r off (test i ph) k first = inl (refl, refl)
Step-Spaced out r off (sleep i ph) k first = inl (refl, refl)
Step-Spaced out r off (expire j e now due le now_le) k first = inl (refl, refl)
Step-Spaced {s = s} out r off (begin now on le) k first =
    let kept =
      wake_tasks-Kept s.table (indices (length s.table.tasks) 0)
        (record s { now = now; cal_timer = false }) in
    inl (ap (λ f. f k) kept.5, ap (λ t. last t k) kept.1)
Step-Spaced out r off begin_exit k first = inl (refl, refl)
Step-Spaced out r off (stop j on) k first = inl (refl, refl)
