-- ===== src/E2e/Threads/Count.antt =====
-- Counting what the phases and timers of the threads stand for, before and after a change.
use native.Mathlib.Decide.{ℕ_discrete}
use cse522s.Base.{
  ℕ, suc, ◌+◌, ◌≤◌, ◌≡◌, refl, ◌∙◌, ap, Option, none, some, List, [], ◌∷◌, length, ◌==◌,
  if◌then◌else◌, arith,
}
use cse522s.E2e.Run.{Event, missed, wake, start_timer}
use cse522s.E2e.Threads.{
  Phase, asleep, woken, working, starting, checking, calling, retiring, ended, State, update,
  wake_up, wake_thread,
}
use cse522s.E2e.Threads.Update.{update_at, update_ne}

-- What a change at `i` from `p` to `q` does to a count.
pub shift {ℓ} :
    {A : Type ℓ} (g : A → ℕ) (f : ℕ → A) (i : ℕ) (p q : A) (k : ℕ)
    → f i ≡ p
    → g (update f i q k) + (if k == i then g p else 0) ≡ g (f k) + (if k == i then g q else 0)
shift g f i p q k at = elim (ℕ_discrete k i) [
  | yes e ↦ ground (arith, e, ap g (update_at f i q k e), ap g (ap f e ∙ at))
  | no ne ↦ ground (arith, ne, ap g (update_ne f i q k ne))
]

pub increase : (f : ℕ → ℕ) (i k : ℕ) → update f i (suc (f i)) k ≡ f k + (if k == i then 1 else 0)
increase f i k = elim (ℕ_discrete k i) [
  | yes e ↦ ground (arith, e, update_at f i (suc (f i)) k e, ap f e)
  | no ne ↦ ground (arith, ne, update_ne f i (suc (f i)) k ne)
]

abbrev pub woken_count : Phase → ℕ
woken_count woken = 1
woken_count _ = 0

abbrev pub working_count : Phase → ℕ
working_count working = 1
working_count _ = 0

abbrev pub timer_count : Option ℕ → ℕ
timer_count none = 0
timer_count (some e) = 1

-- The calls for subtask `k`.
unfoldable pub requests : ℕ → List Event → ℕ
requests k [] = 0
requests k (missed _ _ ∷ es) = requests k es
requests k (wake j ∷ es) = if j == k then suc (requests k es) else requests k es
requests k (start_timer j due ∷ es) = if j == k then suc (requests k es) else requests k es

pub requests-le : (k : ℕ) (es : List Event) → requests k es ≤ length es
unfolding requests
requests-le k [] = omega arith
requests-le k (missed _ _ ∷ es) = omega (arith, requests-le k es)
requests-le k (wake j ∷ es) = ground (arith, requests-le k es)
requests-le k (start_timer j due ∷ es) = ground (arith, requests-le k es)

-- The calls that a thread has still to make for subtask `k` in its round.
unfoldable pub owed : ℕ → Phase → ℕ
owed k starting = 1
owed k checking = 1
owed k (calling es) = requests k es
owed k _ = 0

pub woken-wake_up : (p : Phase) → woken_count (wake_up p) ≤ suc (woken_count p)
woken-wake_up asleep = omega arith
woken-wake_up woken = omega arith
woken-wake_up working = omega arith
woken-wake_up starting = omega arith
woken-wake_up checking = omega arith
woken-wake_up (calling es) = omega arith
woken-wake_up retiring = omega arith
woken-wake_up ended = omega arith

pub working-wake_up : (p : Phase) → working_count (wake_up p) ≡ working_count p
working-wake_up asleep = refl
working-wake_up woken = refl
working-wake_up working = refl
working-wake_up starting = refl
working-wake_up checking = refl
working-wake_up (calling es) = refl
working-wake_up retiring = refl
working-wake_up ended = refl

pub owed-wake_up : (k : ℕ) (p : Phase) → owed k (wake_up p) ≡ owed k p
unfolding owed
owed-wake_up k asleep = refl
owed-wake_up k woken = refl
owed-wake_up k working = refl
owed-wake_up k starting = refl
owed-wake_up k checking = refl
owed-wake_up k (calling es) = refl
owed-wake_up k retiring = refl
owed-wake_up k ended = refl

-- What waking subtask `i` does to the counts.
module _ (s : State) (i k : ℕ) where
  pub woken-wake :
      woken_count ((wake_thread i s).phase k) ≤ woken_count (s.phase k) + (if k == i then 1 else 0)
  woken-wake = ground (
    arith,
    shift woken_count s.phase i (s.phase i) (wake_up (s.phase i)) k refl,
    woken-wake_up (s.phase i),
  )

  pub working-wake : working_count ((wake_thread i s).phase k) ≡ working_count (s.phase k)
  working-wake = ground (
    arith,
    shift working_count s.phase i (s.phase i) (wake_up (s.phase i)) k refl,
    working-wake_up (s.phase i),
  )

  pub owed-wake : (j : ℕ) → owed j ((wake_thread i s).phase k) ≡ owed j (s.phase k)
  owed-wake j = ground (
    arith,
    shift (owed j) s.phase i (s.phase i) (wake_up (s.phase i)) k refl,
    owed-wake_up j (s.phase i),
  )
