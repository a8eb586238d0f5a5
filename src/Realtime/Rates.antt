-- ===== src/Realtime/Rates.antt =====
-- How often each thread is woken.
use cse522s.Base.{
  ℕ, zero, suc, ◌+◌, ◌/◌, ◌%◌, ◌≡◌, refl, List, [], ◌∷◌, ◌++◌, ◌==◌, if◌then◌else◌, u32, arith,
}
use cse522s.Realtime.{
  Thread, kthread, kthread1, kthread2, Call, create, bind, set_fifo, wake, start_timer,
  forward_timer, cancel_timer, stop, timer_function, expiries,
}

abbrev is_same : Thread → Thread → ℕ
is_same kthread kthread = 1
is_same kthread1 kthread1 = 1
is_same kthread2 kthread2 = 1
is_same _ _ = 0

-- How often the calls wake a thread.
unfoldable pub wakings : Thread → List Call → ℕ
wakings t [] = 0
wakings t (wake u ∷ calls) = is_same t u + wakings t calls
wakings t (_ ∷ calls) = wakings t calls

wakings-append :
    (t : Thread) (xs ys : List Call) → wakings t (xs ++ ys) ≡ wakings t xs + wakings t ys
unfolding wakings
wakings-append t [] ys = omega arith
wakings-append t (wake u ∷ xs) ys = omega (arith, wakings-append t xs ys)
wakings-append t (create u ∷ xs) ys = wakings-append t xs ys
wakings-append t (bind u c ∷ xs) ys = wakings-append t xs ys
wakings-append t (set_fifo u c ∷ xs) ys = wakings-append t xs ys
wakings-append t (start_timer s n ∷ xs) ys = wakings-append t xs ys
wakings-append t (forward_timer ∷ xs) ys = wakings-append t xs ys
wakings-append t (cancel_timer ∷ xs) ys = wakings-append t xs ys
wakings-append t (stop u ∷ xs) ys = wakings-append t xs ys

expiry-wakings :
    (rate : ℕ)
    → (wakings kthread (timer_function rate).0 ≡ 1)
      × (wakings kthread1 (timer_function rate).0 ≡ (if rate % 2 == 0 then 1 else 0))
      × (wakings kthread2 (timer_function rate).0 ≡ (if rate % 4 == 0 then 1 else 0))
unfolding timer_function wakings
expiry-wakings rate = ground arith

rate_lem : (n : ℕ) → (expiries n).1 ≡ u32 n
unfolding expiries timer_function
rate_lem zero = refl
rate_lem (suc n) = omega (arith, rate_lem n)

-- After any number of expiries of the timer, also beyond 2 ^ 32, the first thread was woken at every
-- one, the second at every second and the third at every fourth, the first expiry being one of them.
pub expiries-wakings :
    (n : ℕ)
    → (wakings kthread (expiries n).0 ≡ n)
      × (wakings kthread1 (expiries n).0 ≡ (n + 1) / 2)
      × (wakings kthread2 (expiries n).0 ≡ (n + 3) / 4)
unfolding expiries wakings
expiries-wakings zero = (refl, refl, refl)
expiries-wakings (suc n) =
    let (h, h1, h2) = expiries-wakings n in
    let (e, e1, e2) = expiry-wakings (expiries n).1 in
    let split = λ (t : Thread). wakings-append t (expiries n).0 (timer_function (expiries n).1).0 in
    (
      omega (arith, split kthread, h, e),
      ground (arith, split kthread1, h1, e1, rate_lem n),
      ground (arith, split kthread2, h2, e2, rate_lem n),
    )
