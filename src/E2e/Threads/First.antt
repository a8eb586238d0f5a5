-- ===== src/E2e/Threads/First.antt =====
-- The first subtask of a task is released by the first timer and by its own timer only: what holds of
-- its phase and its timer.
use cse522s.Base.{
  ℕ, suc, ◌+◌, ◌≤◌, ◌<◌, ◌≡◌, ◌≢◌, refl, ◌∙◌, sym, ap, true, Option, none, some, List, ◌∷◌, length,
  Bool-cases, inl, inr, ◌⊎◌, ◌==◌, arith,
}
use cse522s.E2e.{Table, subtask, parent}
use native.Mathlib.Decide.{ℕ_discrete}
use mathlib.Core.Path.{subst}
use cse522s.E2e.Run.{ms_to_ktime, Event, missed, wake, start_timer, stamp}
use cse522s.E2e.Threads.{
  Phase, asleep, woken, working, starting, checking, calling, retiring, ended, State, update,
  wake_up, wake_thread, set_phase, released, own_started, called,
}
use cse522s.E2e.Threads.Update.{update_at, update_ne}
use cse522s.E2e.Threads.Static.{Same, Same-refl, Same-parent, Same-stamp, last-stamp}
use cse522s.E2e.Threads.Aims.{last, period, AimsAt}

-- A release is due.
abbrev pub Due : (now last period : ℕ) → Type 0
Due now last period = (last ≡ 0) ⊎ (last + period ≤ now)

abbrev pub TimerSound : (last period : ℕ) → Option ℕ → Type 0
TimerSound last period none = Unit
TimerSound last period (some e) = (0 < last) × (e ≡ last + period)

-- From its release until it starts its timer anew, the subtask has no timer started.
abbrev pub PhaseSound : (now last period : ℕ) → Option ℕ → Phase → Type 0
PhaseSound now last period o woken = Due now last period × (o ≡ none)
PhaseSound now last period o working = (0 < last) × (o ≡ none)
PhaseSound now last period o starting = (0 < last) × (o ≡ none)
PhaseSound now last period o _ = Unit

abbrev pub Sound : State → ℕ → Type 0
Sound s k =
    TimerSound (last s.table k) (period s.table k) (s.timer k)
    × PhaseSound s.now (last s.table k) (period s.table k) (s.timer k) (s.phase k)

-- Of the subtasks of `t` that are the first of their tasks.
abbrev pub AllSound : Table → State → Type 0
AllSound t s = (k : ℕ) → (subtask t k).subtask_id ≡ 0 → Sound s k

-- The clock moves on, and the timer may have expired.
PhaseSound-later :
    (now now' l d : ℕ) (o o' : Option ℕ) (p : Phase)
    → now ≤ now'
    → (o ≡ none → o' ≡ none)
    → PhaseSound now l d o p
    → PhaseSound now' l d o' p
PhaseSound-later now now' l d o o' asleep le gone h = tt
PhaseSound-later now now' l d o o' woken le gone h = (ground (arith, h.0, le), gone h.1)
PhaseSound-later now now' l d o o' working le gone h = (h.0, gone h.1)
PhaseSound-later now now' l d o o' starting le gone h = (h.0, gone h.1)
PhaseSound-later now now' l d o o' checking le gone h = tt
PhaseSound-later now now' l d o o' (calling es) le gone h = tt
PhaseSound-later now now' l d o o' retiring le gone h = tt
PhaseSound-later now now' l d o o' ended le gone h = tt

PhaseSound-wake_up :
    (now l d : ℕ) (o : Option ℕ) (p : Phase)
    → Due now l d
    → o ≡ none
    → PhaseSound now l d o p
    → PhaseSound now l d o (wake_up p)
PhaseSound-wake_up now l d o asleep due no_timer h = (due, no_timer)
PhaseSound-wake_up now l d o woken due no_timer h = h
PhaseSound-wake_up now l d o working due no_timer h = h
PhaseSound-wake_up now l d o starting due no_timer h = h
PhaseSound-wake_up now l d o checking due no_timer h = tt
PhaseSound-wake_up now l d o (calling es) due no_timer h = tt
PhaseSound-wake_up now l d o retiring due no_timer h = tt
PhaseSound-wake_up now l d o ended due no_timer h = tt

pub last_at :
    (t : Table) (i time k : ℕ) → i < length t.subtasks → k ≡ i → last (stamp t i time) k ≡ time
last_at t i time k lt e = ground (arith, last-stamp t i time k lt)

pub last_ne :
    (t : Table) (i time k : ℕ) → i < length t.subtasks → k ≢ i → last (stamp t i time) k ≡ last t k
last_ne t i time k lt ne = ground (arith, last-stamp t i time k lt)

period-stamp : (t : Table) (i time k : ℕ) → period (stamp t i time) k ≡ period t k
period-stamp t i time k =
    ap (λ p. ms_to_ktime p.period) (Same-parent (Same-stamp i time (Same-refl t)) k)

module _ (t : Table) (s : State) (sound : AllSound t s) where
  -- The phase of thread `i` changes and the clock moves on.
  pub move-Sound :
      (i now : ℕ) (p q : Phase)
      → s.phase i ≡ p
      → s.now ≤ now
      → ((l d : ℕ) (o : Option ℕ) → PhaseSound now l d o p → PhaseSound now l d o q)
      → AllSound t (record s { now = now; phase = update s.phase i q })
  move-Sound i now p q ph le change k first =
      let later =
        PhaseSound-later s.now now (last s.table k) (period s.table k) (s.timer k) (s.timer k)
          (s.phase k) le (λ e. e) (sound k first).1 in
      (
        (sound k first).0,
        elim (ℕ_discrete k i) [
          | yes e ↦ rw (update_at s.phase i q k e) (
              change (last s.table k) (period s.table k) (s.timer k) (
                subst (PhaseSound now (last s.table k) (period s.table k) (s.timer k))
                  (ap s.phase e ∙ ph) later))
          | no ne ↦ rw (update_ne s.phase i q k ne) later
        ],
      )

  pub wake-Sound :
      (i : ℕ)
      → Due s.now (last s.table i) (period s.table i)
      → s.timer i ≡ none
      → AllSound t (wake_thread i s)
  wake-Sound i due no_timer k first = (
    (sound k first).0,
    elim (ℕ_discrete k i) [
      | yes e ↦
          rw (update_at s.phase i (wake_up (s.phase i)) k e, e)
            (PhaseSound-wake_up s.now (last s.table i) (period s.table i) (s.timer i) (s.phase i)
              due no_timer
              (subst
                (λ j. PhaseSound s.now (last s.table j) (period s.table j) (s.timer j) (s.phase j))
                e (sound k first).1))
      | no ne ↦ rw (update_ne s.phase i (wake_up (s.phase i)) k ne) (sound k first).1
    ],
  )

  pub release-Sound :
      (i now : ℕ)
      → i < length s.table.subtasks
      → s.phase i ≡ woken
      → s.now ≤ now
      → 0 < now
      → AllSound t (released i now s)
  release-Sound i now lt ph le pos k first = elim (ℕ_discrete k i) [
    | yes e ↦
        let was =
          subst (PhaseSound s.now (last s.table k) (period s.table k) (s.timer k))
            (ap s.phase e ∙ ph) (sound k first).1 in
        rw
          (
            last_at s.table i now k lt e,
            period-stamp s.table i now k,
            update_at s.phase i working k e,
          )
          (subst (TimerSound now (period s.table k)) (sym was.1) tt, (pos, was.1))
    | no ne ↦
        rw
          (
            last_ne s.table i now k lt ne,
            period-stamp s.table i now k,
            update_ne s.phase i working k ne,
          )
          (
            (sound k first).0,
            PhaseSound-later s.now now (last s.table k) (period s.table k) (s.timer k) (s.timer k)
                (s.phase k) le (λ e. e) (sound k first).1,
          )
  ]

  pub start_own-Sound :
      (i : ℕ) → Same t s.table → s.phase i ≡ starting → AllSound t (own_started i s)
  start_own-Sound i same ph k first =
      let cur = subtask s.table i in
      let due = cur.last_release_time + ms_to_ktime (parent s.table cur).period in
      let moved = move-Sound i s.now starting checking ph (omega arith) (λ l d o h. tt) k first in
      elim (ℕ_discrete k i) [
        | yes e ↦
            let was =
              subst (PhaseSound s.now (last s.table k) (period s.table k) (s.timer k))
                (ap s.phase e ∙ ph) (sound k first).1 in
            let head : (cur.subtask_id == 0) ≡ true =
              ground (arith, first, (same.ids i).1, ap (λ j. (subtask t j).subtask_id) e) in
            rw (head, update_at s.timer i (some due) k e, update_at s.phase i checking k e)
              ((was.0, ap (λ j. last s.table j + period s.table j) (sym e)), tt)
        | no ne ↦ elim (Bool-cases (cur.subtask_id == 0)) [
          | inl h ↦ rw (h, update_ne s.timer i (some due) k ne) moved
          | inr h ↦ rw h moved
        ]
      ]

  pub call-Sound :
      (i : ℕ) (e : Event) (es : List Event)
      → s.phase i ≡ calling (e ∷ es)
      → AimsAt t (suc i) e
      → AllSound t (called i e es s)
  call-Sound i (missed a b) es ph aim k first =
      move-Sound i s.now (calling (missed a b ∷ es)) (calling es) ph (omega arith) (λ l d o h. tt) k
        first
  call-Sound i (wake j) es ph aim k first =
      let base = set_phase i (calling es) s in
      rw
        (update_ne base.phase j (wake_up (base.phase j)) k (λ e. absurd (
          omega (
            arith,
            aim,
            first,
            ap (λ m. (subtask t m).subtask_id) e,
            ap (λ m. (subtask t m).subtask_id) aim.0,
          ))))
        (move-Sound i s.now (calling (wake j ∷ es)) (calling es) ph (omega arith) (λ l d o h. tt) k
          first)
  call-Sound i (start_timer j due) es ph aim k first =
      rw
        (update_ne s.timer j (some due) k (λ e. absurd (
          omega (
            arith,
            aim,
            first,
            ap (λ m. (subtask t m).subtask_id) e,
            ap (λ m. (subtask t m).subtask_id) aim.0,
          ))))
        (move-Sound i s.now (calling (start_timer j due ∷ es)) (calling es) ph (omega arith)
          (λ l d o h. tt) k first)

  -- The timer of `j` is gone, and the clock moves on.
  pub forget-Sound :
      (j now : ℕ) → s.now ≤ now → AllSound t (record s { now = now; timer = update s.timer j none })
  forget-Sound j now le k first = elim (ℕ_discrete k j) [
    | yes e ↦ rw (update_at s.timer j none k e) (
      tt,
      PhaseSound-later s.now now (last s.table k) (period s.table k) (s.timer k) none (s.phase k) le
          (λ e. refl) (sound k first).1,
    )
    | no ne ↦ rw (update_ne s.timer j none k ne) (
      (sound k first).0,
      PhaseSound-later s.now now (last s.table k) (period s.table k) (s.timer k) (s.timer k)
          (s.phase k) le (λ e. e) (sound k first).1,
    )
  ]

  pub later-Sound : (now : ℕ) → s.now ≤ now → AllSound t (record s { now = now })
  later-Sound now le k first = (
    (sound k first).0,
    PhaseSound-later s.now now (last s.table k) (period s.table k) (s.timer k) (s.timer k)
        (s.phase k) le (λ e. e) (sound k first).1,
  )
