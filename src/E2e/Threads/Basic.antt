-- ===== src/E2e/Threads/Basic.antt =====
-- What holds in every interleaving until the module is unloaded: what the tables keep, at which subtasks
-- the calls of a thread aim, and that nothing happens before the first timer.
use mathlib.Core.Path.{subst}
use cse522s.Base.{
  ℕ, zero, suc, ◌+◌, ◌≤◌, ◌<◌, ◌≡◌, ◌≢◌, refl, ◌∙◌, sym, true, false, none, List, [], ◌∷◌, length,
  Bool-cases, inl, inr, ltb, arith, get_or,
}
use cse522s.E2e.{Table, Subtask, no_subtask}
use cse522s.E2e.Run.{Event, missed, wake, start_timer, stamp}
use cse522s.E2e.Init.{cal_timer_func, indices, init_run, clear_releases}
use cse522s.E2e.Threads.{
  Phase, asleep, woken, working, starting, checking, calling, retiring, ended, State, update,
  set_phase, perform, initial, released, finished, own_started, successor_calls, checked, Step,
  release, finish, start_own, check, call, test, sleep, expire, begin, begin_exit, stop, Reaches,
  here, after,
}
use cse522s.E2e.Threads.Update.{update_all}
use cse522s.E2e.Threads.Static.{IsLaidOut, Same, Same-refl, Same-stamp, init_run-Same, last-stamp}
use cse522s.E2e.Threads.Aims.{
  last, Aimed, Aimed-update, Aimed-wake, wake_tasks-Aimed, wake_tasks-Kept, successor_calls-Aimed,
}

-- Before the first timer.
abbrev pub Idle : Phase → Type 0
Idle (calling []) = Unit
Idle (calling (e ∷ es)) = ⊥
Idle asleep = Unit
Idle retiring = Unit
Idle ended = Unit
Idle p = ⊥

pub record Basic (t₀ : Table) (s : State) : Type 0 where
  pub clock : 0 < s.now
  pub same : Same t₀ s.table
  pub aimed : (k : ℕ) → Aimed t₀ k (s.phase k)
  pub quiet :
      s.cal_timer ≡ true → (k : ℕ) → (last s.table k ≡ 0) × Idle (s.phase k) × (s.timer k ≡ none)

-- What is read past the end.
past_end :
    (xs : List Subtask) (k : ℕ) → length xs ≤ k → (get_or xs k no_subtask).last_release_time ≡ 0
past_end [] k h = refl
past_end (x ∷ xs) zero h = ground arith
past_end (x ∷ xs) (suc k) h = past_end xs k (omega arith)

-- The release times, when those below `i` are cleared already.
clear-last :
    (n i : ℕ) (t : Table) (k : ℕ)
    → i + n ≡ length t.subtasks
    → ((j : ℕ) → j < i → last t j ≡ 0)
    → last (clear_releases (indices n i) t) k ≡ 0
unfolding clear_releases indices stamp
clear-last zero i t k e h = elim (Bool-cases (ltb k i)) [
  | inl l ↦ h k (ground (arith, l))
  | inr l ↦ past_end t.subtasks k (ground (arith, l, e))
]
clear-last (suc n) i t k e h =
    clear-last n (suc i) (stamp t i 0) k (omega (arith, e, (Same-stamp i 0 (Same-refl t)).size))
      (λ j lt. ground (arith, last-stamp t i 0 j (omega (arith, e)), lt, h j))

initial-Basic : (t : Table) (now : ℕ) → 0 < now → Basic t (initial t now)
unfolding init_run
initial-Basic t now pos = record {
  clock = pos;
  same = init_run-Same t;
  aimed = λ k. (tt, omega arith);
  quiet = λ _ k.
      (clear-last (length t.subtasks) 0 t k (omega arith) (λ j lt. omega (arith, lt)), tt, refl);
}

module _ {t₀ : Table} (out : IsLaidOut t₀) where
  -- A thread that is not idle has no part in what is before the first timer.
  busy :
      {s : State} (i : ℕ) (p : Phase)
      → Basic t₀ s
      → s.phase i ≡ p
      → (Idle p → ⊥)
      → s.cal_timer ≢ true
  busy i p basic ph not_idle on = not_idle (subst Idle ph (basic.quiet on i).1)

  -- A step of a thread that is not idle, to another phase.
  advance-Basic :
      (s u : State) (i : ℕ) (p q : Phase)
      → Basic t₀ s
      → s.phase i ≡ p
      → (Idle p → ⊥)
      → u.phase ≡ update s.phase i q
      → Aimed t₀ i q
      → s.now ≤ u.now
      → Same t₀ u.table
      → u.cal_timer ≡ s.cal_timer
      → Basic t₀ u
  advance-Basic s u i p q basic ph not_idle moved aim le same cal = record {
    clock = omega (arith, basic.clock, le);
    same = same;
    aimed = λ k.
        subst (λ f. Aimed t₀ k (f k)) (sym moved) (Aimed-update t₀ s.phase i q aim basic.aimed k);
    quiet = λ on. absurd (busy i p basic ph not_idle (sym cal ∙ on));
  }

  -- A step of an idle thread, which stays idle.
  Idle-Basic :
      (s : State) (i : ℕ) (q : Phase)
      → Basic t₀ s
      → Aimed t₀ i q
      → Idle q
      → Basic t₀ (set_phase i q s)
  Idle-Basic s i q basic aim idle = record {
    clock = basic.clock;
    same = basic.same;
    aimed = Aimed-update t₀ s.phase i q aim basic.aimed;
    quiet = λ on k. (
      (basic.quiet on k).0,
      update_all (λ j p. Idle p) s.phase i q idle (λ j ne. (basic.quiet on j).1) k,
      (basic.quiet on k).2,
    );
  }

  perform-Basic : (s : State) (e : Event) → Basic t₀ s → s.cal_timer ≢ true → Basic t₀ (perform e s)
  perform-Basic s (missed a c) b off = b
  perform-Basic s (wake k) b off = record {
    clock = b.clock;
    same = b.same;
    aimed = Aimed-wake t₀ s k b.aimed;
    quiet = λ on. absurd (off on);
  }
  perform-Basic s (start_timer k e) b off = record {
    clock = b.clock;
    same = b.same;
    aimed = b.aimed;
    quiet = λ on. absurd (off on);
  }

  step-Basic : {s u : State} → Step s u → u.unloading ≡ false → Basic t₀ s → Basic t₀ u
  unfolding cal_timer_func
  step-Basic {s} (release i t lt ph le) off b =
      advance-Basic s (released i t s) i woken working b ph (λ h. h) refl tt le
        (Same-stamp i t b.same) refl
  step-Basic {s} (finish i t lt ph le) off b =
      advance-Basic s (finished i t s) i working starting b ph (λ h. h) refl tt le b.same refl
  step-Basic {s} (start_own i lt ph) off b =
      advance-Basic s (own_started i s) i starting checking b ph (λ h. h) refl tt (omega arith)
        b.same refl
  step-Basic {s} (check i t lt ph le) off b =
      advance-Basic s (checked i t s) i checking (calling (successor_calls s.table i t)) b ph
        (λ h. h) refl (successor_calls-Aimed out b.same i t lt) le b.same refl
  step-Basic {s} (call i e es ph) off b =
      let aim = subst (Aimed t₀ i) ph (b.aimed i) in
      let base = set_phase i (calling es) s in
      perform-Basic base e
        (advance-Basic s base i (calling (e ∷ es)) (calling es) b ph (λ h. h) refl
          (aim.0.1, omega (arith, aim.1)) (omega arith) b.same refl)
        (busy i (calling (e ∷ es)) b ph (λ h. h))
  step-Basic {s} (test i ph) off b = elim (Bool-cases (s.stopped i)) [
    | inl h ↦ rw h (Idle-Basic s i ended b tt tt)
    | inr h ↦ rw h (Idle-Basic s i retiring b tt tt)
  ]
  step-Basic {s} (sleep i ph) off b = Idle-Basic s i asleep b tt tt
  step-Basic {s} (expire k e t due le now_le) off b = record {
    clock = omega (arith, b.clock, now_le);
    same = b.same;
    aimed = Aimed-wake t₀ s k b.aimed;
    quiet = λ on. absurd (ground (arith, (b.quiet on k).2, due));
  }
  step-Basic {s} (begin t on le) off b =
      let is = indices (length s.table.tasks) 0 in
      let base : State = record s { now = t; cal_timer = false } in
      let kept = wake_tasks-Kept s.table is base in
      record {
        clock = omega (arith, b.clock, le, kept.0);
        same = subst (Same t₀) (sym kept.1) b.same;
        aimed = wake_tasks-Aimed t₀ s.table is base b.aimed;
        quiet = λ again. absurd (ground (arith, kept.3, again));
      }
  step-Basic {s} begin_exit off b = record {
    clock = b.clock;
    same = b.same;
    aimed = b.aimed;
    quiet = b.quiet;
  }
  step-Basic {s} (stop k on) off b = absurd (ground (arith, on, off))

perform-unloading : (s : State) (e : Event) → (perform e s).unloading ≡ s.unloading
perform-unloading s (missed a c) = refl
perform-unloading s (wake k) = refl
perform-unloading s (start_timer k e) = refl

-- Once it has begun, the unloading goes on.
pub still_loaded : {s u : State} → Step s u → u.unloading ≡ false → s.unloading ≡ false
unfolding cal_timer_func
still_loaded (release i t lt ph le) off = off
still_loaded (finish i t lt ph le) off = off
still_loaded (start_own i lt ph) off = off
still_loaded (check i t lt ph le) off = off
still_loaded {s} (call i e es ph) off = sym (perform-unloading (set_phase i (calling es) s) e) ∙ off
still_loaded (test i ph) off = off
still_loaded (sleep i ph) off = off
still_loaded (expire k e t due le now_le) off = off
still_loaded {s} (begin t on le) off =
    sym
      (wake_tasks-Kept s.table (indices (length s.table.tasks) 0)
        (record s { now = t; cal_timer = false })).4
    ∙ off
still_loaded begin_exit off = absurd (ground (arith, off))
still_loaded (stop k on) off = off

pub Reaches-Basic :
    {t : Table} {s : State} → IsLaidOut t → Reaches t s → s.unloading ≡ false → Basic t s
Reaches-Basic {t} out (here {now} pos) off = initial-Basic t now pos
Reaches-Basic out (after r x) off = step-Basic out x off (Reaches-Basic out r (still_loaded x off))
