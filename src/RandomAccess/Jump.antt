-- ===== src/RandomAccess/Jump.antt =====
-- The register started at a step is the register advanced so often.
use native.Mathlib.Nat.{pow-suc, one-le-pow, div-lt_iff_lt-mul}
use cse522s.Base.{
  ℕ, zero, suc, ◌+◌, ◌-◌, ◌*◌, ◌/◌, ◌%◌, ◌^◌, ◌<◌, ◌≤◌, ◌≡◌, refl, ◌∙◌, sym, ap, ◌==◌, false,
  Bool-cases, inl, inr, if◌then◌else◌, arith, pos, negsuc, get_or, ltb,
}
use cse522s.Base.Xor.{zero_bit_xor}
use cse522s.RandomAccess.{
  advance, combine, m2, m2_from, top_bit, climb, start_at, make_small, make_positive, hpcc_starts,
  period,
}
use cse522s.RandomAccess.Register.{steps, steps_lt, steps_add, steps-xor, steps-zero, steps-pow}
use cse522s.RandomAccess.Digits.{
  spread, spread-cong, spread-pow, spread-diagonal, halved, combine-spread, spread-map,
}

-- The register after `n` steps from 1.
abbrev pub nth : ℕ → ℕ
nth n = steps n 1

nth_lt : (n : ℕ) → nth n < 2 ^ 64
nth_lt n = steps_lt n 1 (omega arith)

nth_add : (m n : ℕ) → steps m (nth n) ≡ nth (m + n)
nth_add m n = sym (steps_add m n 1)

-- Doubling the number of steps: each digit of the register moves on by as many steps as it stands for.
spread-nth : (r : ℕ) → r < 2 ^ 64 → spread 64 r nth ≡ r
spread-nth r h = spread-cong 64 r nth (λ i. 2 ^ i) (λ i p. steps-pow i p) ∙ spread-pow 64 r h

steps-spread :
    (k r : ℕ) (m : ℕ → ℕ)
    → ((i : ℕ) → m i < 2 ^ 64)
    → steps k (spread 64 r m) ≡ spread 64 r (λ i. steps k (m i))
steps-spread k r m h =
    spread-map 64 64 r m (steps k) (steps-zero k) (λ a b p q. steps-xor k a b p q) h

doubled : (k : ℕ) → spread 64 (nth k) (λ i. nth (i + i)) ≡ nth (k + k)
doubled k =
    let r = nth k in
    let by_row : (i : ℕ) → spread 64 r (λ j. nth (i + j)) ≡ nth (k + i) = λ i.
      spread-cong 64 r (λ j. nth (i + j)) (λ j. steps i (nth j)) (λ j p. sym (nth_add i j))
      ∙ sym (steps-spread i r nth nth_lt)
      ∙ ap (steps i) (spread-nth r (nth_lt k))
      ∙ nth_add i k
      ∙ ap nth {y = k + i} (omega arith) in
    let rows : spread 64 r (λ i. spread 64 r (λ j. nth (i + j))) ≡ nth (k + k) =
      spread-cong 64 r (λ i. spread 64 r (λ j. nth (i + j))) (λ i. steps k (nth i))
        (λ i p. by_row i ∙ sym (nth_add k i))
      ∙ sym (steps-spread k r nth nth_lt)
      ∙ ap (steps k) (spread-nth r (nth_lt k))
      ∙ nth_add k k in
    let swap : (i j : ℕ) → i + j ≡ j + i = λ i j. omega arith in
    sym (spread-diagonal 64 r (λ i j. nth (i + j)) (λ i j. ap nth (swap i j))) ∙ rows

get_or-m2_from : (n t i : ℕ) → i < n → get_or (m2_from n (nth t)) i 0 ≡ nth (t + (i + i))
unfolding m2_from steps
get_or-m2_from zero t i h = absurd (omega arith)
get_or-m2_from (suc n) t zero h = ap nth {y = t + (0 + 0)} (omega arith)
get_or-m2_from (suc n) t (suc i) h =
    get_or-m2_from n (suc (suc t)) i (omega (arith, h))
    ∙ ap nth {y = t + (suc i + suc i)} (omega arith)

get_or-m2 : (i : ℕ) → i < 64 → get_or m2 (0 + i) 0 ≡ nth (i + i)
unfolding m2 steps
get_or-m2 i h =
    ap (λ k. get_or m2 k 0) {y = i} (omega arith)
    ∙ get_or-m2_from 64 0 i h
    ∙ ap nth {y = i + i} (omega arith)

-- One round of the loop over the digits of a word doubles the number of steps.
combine-nth : (k : ℕ) → combine 64 0 (nth k) m2 0 ≡ nth (k + k)
combine-nth k =
    combine-spread 64 0 (nth k) m2 0
    ∙ zero_bit_xor (spread 64 (nth k / 2 ^ 0) (λ i. get_or m2 (0 + i) 0))
    ∙ spread-cong 64 (nth k / 2 ^ 0) (λ i. get_or m2 (0 + i) 0) (λ i. nth (i + i)) get_or-m2
    ∙ ap (λ r. spread 64 r (λ i. nth (i + i))) {y = nth k} (omega arith)
    ∙ doubled k

-- Twice the half, and one step more for an odd number.
next-nth :
    (a : ℕ) → (if a % 2 == 1 then advance (nth (a / 2 + a / 2)) else nth (a / 2 + a / 2)) ≡ nth a
unfolding steps
next-nth a = elim (Bool-cases (a % 2 == 1)) [
  | inl odd ↦ rw odd (ap nth {x = suc (a / 2 + a / 2)} {y = a} (ground (arith, odd)))
  | inr even ↦ rw even (ap nth {x = a / 2 + a / 2} {y = a} (ground (arith, even)))
]

climb-nth : (i n : ℕ) → climb i n (nth (n / 2 ^ i)) ≡ nth n
unfolding climb steps
climb-nth zero n = ap nth {y = n} (omega arith)
climb-nth (suc i) n =
    rw (halved i n, combine-nth (n / 2 ^ i / 2), next-nth (n / 2 ^ i)) (climb-nth i n)

top_bit-one : (d n : ℕ) → 0 < n → n < 2 ^ d → n / 2 ^ top_bit d n ≡ 1
unfolding top_bit
top_bit-one zero n p q = absurd (omega arith)
top_bit-one (suc d) n p q = elim (Bool-cases (n / 2 ^ d % 2 == 1)) [
  | inl odd ↦ rw odd (ground (arith, odd, below))
  | inr even ↦ rw even (top_bit-one d n p (zero_left (ground (arith, even, below))))
]
  where
    positive : 0 < 2 ^ d
    positive = one-le-pow d 2 (omega arith)

    below : n / 2 ^ d < 2
    below = (div-lt_iff_lt-mul positive).1 (omega (arith, q, pow-suc 2 d))

    zero_left : n / 2 ^ d ≡ 0 → n < 2 ^ d
    zero_left e = omega (arith, (div-lt_iff_lt-mul {x = n} {y = 1} positive).0 (omega (arith, e)))

start_at-nth : (n : ℕ) → n < 2 ^ 63 → start_at n ≡ nth n
unfolding start_at steps advance
start_at-nth zero h = refl
start_at-nth (suc n) h =
    let nonzero : (suc n == 0) ≡ false = ground arith in
    rw nonzero refl
    ∙ ap (climb (top_bit 63 (suc n)) (suc n))
        (ap nth (sym (top_bit-one 63 (suc n) (omega arith) h)))
    ∙ climb-nth (top_bit 63 (suc n)) (suc n)

nth-period : nth period ≡ 1
unfolding start_at climb top_bit combine m2 m2_from advance
nth-period = sym (start_at-nth period (omega arith))

nth-later : (n : ℕ) → nth (n + period) ≡ nth n
nth-later n = sym (nth_add n period) ∙ ap (steps n) nth-period

make_small-nth : (rounds n : ℕ) → nth (make_small rounds n) ≡ nth n
unfolding make_small
make_small-nth zero n = refl
make_small-nth (suc rounds) n = elim (Bool-cases (ltb period n)) [
  | inl large ↦ rw large (
      make_small-nth rounds (n - period)
      ∙ sym (nth-later (n - period))
      ∙ ap nth {y = n} (ground (arith, large)))
  | inr small ↦ rw small refl
]

make_small_le : (rounds n : ℕ) → n ≤ rounds * period + period → make_small rounds n ≤ period
unfolding make_small
make_small_le zero n h = omega (arith, h)
make_small_le (suc rounds) n h = ground (arith, make_small_le rounds (n - period))

make_positive_lt : (rounds k : ℕ) → make_positive rounds k < period
unfolding make_positive
make_positive_lt zero k = omega arith
make_positive_lt (suc rounds) k = ground (arith, make_positive_lt rounds (k - period))

make_positive-nth : (rounds k : ℕ) → k < rounds * period → nth (suc k + make_positive rounds k) ≡ 1
unfolding make_positive
make_positive-nth zero k h = absurd (omega arith)
make_positive-nth (suc rounds) k h = elim (Bool-cases (ltb k period)) [
  | inl small ↦ rw small (ap nth {y = period} (ground (arith, small)) ∙ nth-period)
  | inr large ↦ rw large (
      ap nth {y = suc (k - period) + make_positive rounds (k - period) + period}
        (ground (arith, large))
      ∙ nth-later (suc (k - period) + make_positive rounds (k - period))
      ∙ make_positive-nth rounds (k - period) (ground (arith, large, h)))
]

-- For every `int64_t`: started at step `n` from 0 on, the register is the one that starts at 1 and
-- advances `n` times, also where the period is exceeded; started at -(n + 1), it advances to 1 in
-- n + 1 steps.
pub hpcc_starts-steps :
    (n : ℕ)
    → n < 2 ^ 63
    → (hpcc_starts (pos n) ≡ steps n 1) × (steps (suc n) (hpcc_starts (negsuc n)) ≡ 1)
unfolding hpcc_starts
hpcc_starts-steps n h = (
  reduced n (omega (arith, h)),
  ap (steps (suc n)) (reduced (make_positive 8 n) (omega (arith, make_positive_lt 8 n)))
      ∙ nth_add (suc n) (make_positive 8 n)
      ∙ make_positive-nth 8 n (omega (arith, h)),
)
  where
    reduced : (m : ℕ) → m ≤ 8 * period + period → start_at (make_small 8 m) ≡ nth m
    reduced m p =
        start_at-nth (make_small 8 m) (omega (arith, make_small_le 8 m p)) ∙ make_small-nth 8 m
