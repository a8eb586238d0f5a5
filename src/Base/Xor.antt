-- ===== src/Base/Xor.antt =====
-- `^` as an operation on words: its order does not matter, and it acts digit by digit.
use Prim.Native.Nat.{ℕ, zero, suc, ◌+◌, ◌*◌, ◌/◌, ◌^◌, ◌≤◌, ◌<◌, bit_xor, bit_xor-bitwise}
use mathlib.Core.Path.{◌≡◌, refl, sym, ap, ◌∙◌}
use native.Mathlib.Nat.{pow-suc}
use native.Mathlib.Omega.{arith}
use cse522s.Base.Bits.{bit_xor_step, bit_xor_assoc, bit_xor_self, bit_xor_zero}

pub zero_bit_xor : (b : ℕ) → bit_xor 0 b ≡ b
zero_bit_xor b = bit_xor-bitwise 0 b

comm_fuel : (f a b : ℕ) → a ≤ f → bit_xor a b ≡ bit_xor b a
comm_fuel f zero b h = rw (zero_bit_xor b, bit_xor_zero b) refl
comm_fuel zero (suc a) b h = absurd (omega arith)
comm_fuel (suc f) (suc a) b h =
    bit_xor_step (suc a) b
    ∙ rw (comm_fuel f (suc a / 2) (b / 2) (omega arith)) (omega (arith, bit_xor_step b (suc a)))

pub bit_xor_comm : (a b : ℕ) → bit_xor a b ≡ bit_xor b a
bit_xor_comm a b = comm_fuel a a b (omega arith)

pub bit_xor_left_comm : (a b c : ℕ) → bit_xor a (bit_xor b c) ≡ bit_xor b (bit_xor a c)
bit_xor_left_comm a b c =
    sym (bit_xor_assoc a b c) ∙ ap (λ x. bit_xor x c) (bit_xor_comm a b) ∙ bit_xor_assoc b a c

-- Both sides of an equation are sorted alike.
pub ruleset xors = (bit_xor_assoc, bit_xor_comm, bit_xor_left_comm, bit_xor_zero, zero_bit_xor)

pub bit_xor_again : (a b : ℕ) → bit_xor a (bit_xor a b) ≡ b
bit_xor_again a b =
    sym (bit_xor_assoc a a b) ∙ ap (λ x. bit_xor x b) (bit_xor_self a) ∙ zero_bit_xor b

pub bit_xor_double : (a b : ℕ) → bit_xor (2 * a) (2 * b) ≡ 2 * bit_xor a b
bit_xor_double a b =
    let ha : 2 * a / 2 ≡ a = omega arith in
    let hb : 2 * b / 2 ≡ b = omega arith in bit_xor_step (2 * a) (2 * b) ∙ rw (ha, hb) (omega arith)

pub bit_xor_low : (a b : ℕ) → a < 2 → bit_xor a (2 * b) ≡ a + 2 * b
bit_xor_low a b h =
    let ha : a / 2 ≡ 0 = omega arith in
    let hb : 2 * b / 2 ≡ b = omega arith in
    bit_xor_step a (2 * b) ∙ rw (ha, hb, zero_bit_xor b) (omega arith)

pub bit_xor_lt : (k a b : ℕ) → a < 2 ^ k → b < 2 ^ k → bit_xor a b < 2 ^ k
bit_xor_lt zero zero b ha hb = omega (arith, zero_bit_xor b)
bit_xor_lt zero (suc a) b ha hb = absurd (omega arith)
bit_xor_lt (suc k) a b ha hb = omega (
  arith,
  bit_xor_step a b,
  bit_xor_lt k (a / 2) (b / 2) (omega (arith, pow-suc 2 k)) (omega (arith, pow-suc 2 k)),
  pow-suc 2 k,
)

pow-shift : (k h : ℕ) → 2 ^ suc k * h ≡ 2 * (2 ^ k * h)
pow-shift k h = rw (pow-suc 2 k) (omega arith)

-- The digits below the `k`-th, and those from it on, are taken separately.
pub bit_xor-blocks :
    (k l h l' h' : ℕ)
    → l < 2 ^ k
    → l' < 2 ^ k
    → bit_xor (l + 2 ^ k * h) (l' + 2 ^ k * h') ≡ bit_xor l l' + 2 ^ k * bit_xor h h'
bit_xor-blocks zero zero h zero h' p q =
    let one : (x : ℕ) → 0 + 2 ^ 0 * x ≡ x = λ x. omega arith in
    rw (one h, one h', one (bit_xor h h')) refl
bit_xor-blocks zero zero h (suc l') h' p q = absurd (omega arith)
bit_xor-blocks zero (suc l) h l' h' p q = absurd (omega arith)
bit_xor-blocks (suc k) l h l' h' p q =
    let half : (l + 2 ^ suc k * h) / 2 ≡ l / 2 + 2 ^ k * h = omega (arith, pow-shift k h) in
    let half' : (l' + 2 ^ suc k * h') / 2 ≡ l' / 2 + 2 ^ k * h' = omega (arith, pow-shift k h') in
    let inner =
      bit_xor-blocks k (l / 2) h (l' / 2) h' (omega (arith, pow-suc 2 k))
        (omega (arith, pow-suc 2 k)) in
    bit_xor_step (l + 2 ^ suc k * h) (l' + 2 ^ suc k * h')
    ∙ rw (half, half', inner)
        (omega
          (arith, pow-shift k h, pow-shift k h', pow-shift k (bit_xor h h'), bit_xor_step l l'))
