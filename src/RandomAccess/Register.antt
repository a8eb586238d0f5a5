-- ===== src/RandomAccess/Register.antt =====
-- The shift register of random_access.c is linear in `^`.
use Prim.Native.Nat.{bit_xor}
use native.Mathlib.Nat.{pow-suc, pow-le-pow_right}
use mathlib.Core.Path.{subst₂}
use cse522s.Base.{
  ℕ, zero, suc, ◌+◌, ◌*◌, ◌/◌, ◌%◌, ◌^◌, ◌<◌, ◌≤◌, ◌≡◌, refl, ◌∙◌, sym, ap, if◌then◌else◌, leb,
  arith,
}
use cse522s.Base.Bits.{bit_xor_zero}
use cse522s.Base.Xor.{xors, bit_xor_lt, bit_xor_double, bit_xor-blocks}
use cse522s.RandomAccess.{advance}

abbrev feedback : ℕ → ℕ
feedback h = if leb 1 h then 7 else 0

-- By the highest digit `h` and the others.
advance-parts :
    (l h : ℕ) → l < 2 ^ 63 → h < 2 → advance (l + 2 ^ 63 * h) ≡ bit_xor (2 * l) (feedback h)
unfolding advance
advance-parts l zero p q =
    let shifted : (l + 2 ^ 63 * 0) * 2 % 2 ^ 64 ≡ 2 * l = omega arith in rw shifted (ground arith)
advance-parts l (suc zero) p q =
    let shifted : (l + 2 ^ 63 * 1) * 2 % 2 ^ 64 ≡ 2 * l = omega arith in rw shifted (ground arith)
advance-parts l (suc (suc h)) p q = absurd (omega arith)

feedback-xor :
    (h h' : ℕ) → h < 2 → h' < 2 → feedback (bit_xor h h') ≡ bit_xor (feedback h) (feedback h')
feedback-xor zero zero p q = refl
feedback-xor zero (suc zero) p q = refl
feedback-xor (suc zero) zero p q = refl
feedback-xor (suc zero) (suc zero) p q = refl
feedback-xor (suc (suc h)) h' p q = absurd (omega arith)
feedback-xor zero (suc (suc h')) p q = absurd (omega arith)
feedback-xor (suc zero) (suc (suc h')) p q = absurd (omega arith)

parts : (a : ℕ) → a % 2 ^ 63 + 2 ^ 63 * (a / 2 ^ 63) ≡ a
parts a = omega arith

pub advance_lt : (a : ℕ) → a < 2 ^ 64 → advance a < 2 ^ 64
unfolding advance
advance_lt a p =
    bit_xor_lt 64 (a * 2 % 2 ^ 64) (if leb (2 ^ 63) a then 7 else 0) (omega arith) (ground arith)

blocks-xor :
    (l h l' h' : ℕ)
    → l < 2 ^ 63
    → h < 2
    → l' < 2 ^ 63
    → h' < 2
    → advance (bit_xor (l + 2 ^ 63 * h) (l' + 2 ^ 63 * h'))
      ≡ bit_xor (advance (l + 2 ^ 63 * h)) (advance (l' + 2 ^ 63 * h'))
blocks-xor l h l' h' p q p' q' =
    rw
      (
        bit_xor-blocks 63 l h l' h' p p',
        advance-parts l h p q,
        advance-parts l' h' p' q',
        advance-parts (bit_xor l l') (bit_xor h h') (bit_xor_lt 63 l l' p p')
            (bit_xor_lt 1 h h' q q'),
        feedback-xor h h' q q',
        sym (bit_xor_double l l'),
      )
      (simp (xors))

pub advance-xor :
    (a b : ℕ) → a < 2 ^ 64 → b < 2 ^ 64 → advance (bit_xor a b) ≡ bit_xor (advance a) (advance b)
advance-xor a b p q =
    subst₂ (λ x y. advance (bit_xor x y) ≡ bit_xor (advance x) (advance y)) (parts a) (parts b)
      (blocks-xor (a % 2 ^ 63) (a / 2 ^ 63) (b % 2 ^ 63) (b / 2 ^ 63) (omega arith) (omega arith)
        (omega arith) (omega arith))

-- The register after so many steps.
unfoldable pub steps : (n ran : ℕ) → ℕ
steps zero ran = ran
steps (suc n) ran = advance (steps n ran)

pub steps_lt : (n a : ℕ) → a < 2 ^ 64 → steps n a < 2 ^ 64
unfolding steps
steps_lt zero a p = p
steps_lt (suc n) a p = advance_lt (steps n a) (steps_lt n a p)

pub steps_add : (m n a : ℕ) → steps (m + n) a ≡ steps m (steps n a)
unfolding steps
steps_add zero n a = ap (λ k. steps k a) {y = n} (omega arith)
steps_add (suc m) n a =
    ap (λ k. steps k a) {y = suc (m + n)} (omega arith) ∙ ap advance (steps_add m n a)

pub steps-xor :
    (n a b : ℕ) → a < 2 ^ 64 → b < 2 ^ 64 → steps n (bit_xor a b) ≡ bit_xor (steps n a) (steps n b)
unfolding steps
steps-xor zero a b p q = refl
steps-xor (suc n) a b p q =
    ap advance (steps-xor n a b p q)
    ∙ advance-xor (steps n a) (steps n b) (steps_lt n a p) (steps_lt n b q)

pub steps-zero : (n : ℕ) → steps n 0 ≡ 0
unfolding steps advance
steps-zero zero = refl
steps-zero (suc n) = ap advance (steps-zero n)

shifted : (a : ℕ) → a < 2 ^ 63 → advance a ≡ 2 * a
unfolding advance
shifted a p = ground (arith, bit_xor_zero (a * 2 % 2 ^ 64), p)

-- For its first 63 steps the register only shifts.
pub steps-pow : (n : ℕ) → n < 64 → steps n 1 ≡ 2 ^ n
unfolding steps advance
steps-pow zero p = refl
steps-pow (suc n) p =
    let half : 2 ^ suc n ≤ 2 ^ 63 = pow-le-pow_right (omega arith) {j = 63} (omega (arith, p)) in
    ap advance (steps-pow n (omega (arith, p)))
    ∙ shifted (2 ^ n) (omega (arith, half, pow-suc 2 n))
    ∙ omega (arith, pow-suc 2 n)
