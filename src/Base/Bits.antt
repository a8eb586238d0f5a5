-- ===== src/Base/Bits.antt =====
-- `&` and `^` on the lowest binary digit, at every width.
use Prim.Native.Nat.{
  ℕ, zero, suc, ◌+◌, ◌-◌, ◌*◌, ◌/◌, ◌%◌, ◌^◌, ◌≤◌, ◌<◌, min, digits, bit_and, bit_and-bitwise,
  bit_xor, bit_xor-bitwise, differ,
}
use mathlib.Core.Path.{◌≡◌, refl, sym, ◌∙◌}
use native.Mathlib.Nat.{pow-suc, one-le-pow}
use native.Mathlib.Omega.{arith}

-- The recursion on digits takes fuel; any two amounts that cover the number agree.
enough :
    (rest : ℕ → ℕ) (op : ℕ → ℕ → ℕ) (f g a b : ℕ)
    → a ≤ f
    → a ≤ g
    → digits rest op f a b ≡ digits rest op g a b
enough rest op zero zero a b p q = refl
enough rest op zero (suc g) zero b p q = refl
enough rest op zero (suc g) (suc a) b p q = absurd (omega arith)
enough rest op (suc f) zero zero b p q = refl
enough rest op (suc f) zero (suc a) b p q = absurd (omega arith)
enough rest op (suc f) (suc g) zero b p q = refl
enough rest op (suc f) (suc g) (suc a) b p q =
    rw (enough rest op f g (suc a / 2) (b / 2) (omega arith) (omega arith))

pub bit_and_step : (a b : ℕ) → bit_and a b ≡ bit_and (a / 2) (b / 2) * 2 + min (a % 2) (b % 2)
bit_and_step zero b = rw (bit_and-bitwise 0 b, bit_and-bitwise 0 (b / 2)) (omega arith)
bit_and_step (suc a) b =
    rw (bit_and-bitwise (suc a) b, bit_and-bitwise (suc a / 2) (b / 2))
      (omega (
        arith,
        enough (λ b. zero) min a (suc a / 2) (suc a / 2) (b / 2) (omega arith) (omega arith),
      ))

-- A power of two shares no digit with its predecessor.
pub bit_and-pow : (k : ℕ) → bit_and (2 ^ k) (2 ^ k - 1) ≡ 0
bit_and-pow zero = refl
bit_and-pow (suc k) =
    let pos : 1 ≤ 2 ^ k = one-le-pow k 2 (omega arith) in
    let up : 2 ^ suc k / 2 ≡ 2 ^ k = omega (arith, pow-suc 2 k) in
    let down : (2 ^ suc k - 1) / 2 ≡ 2 ^ k - 1 = omega (arith, pow-suc 2 k) in
    bit_and_step (2 ^ suc k) (2 ^ suc k - 1)
    ∙ rw (up, down, bit_and-pow k) (omega (arith, pow-suc 2 k))

differ_lem : (x y : ℕ) → x < 2 → y < 2 → differ x y ≡ (x + y) % 2
differ_lem zero y h k = omega arith
differ_lem (suc zero) zero h k = omega arith
differ_lem (suc zero) (suc zero) h k = omega arith
differ_lem (suc zero) (suc (suc y)) h k = absurd (omega arith)
differ_lem (suc (suc x)) y h k = absurd (omega arith)

pub bit_xor_step : (a b : ℕ) → bit_xor a b ≡ bit_xor (a / 2) (b / 2) * 2 + (a % 2 + b % 2) % 2
bit_xor_step zero b = rw (bit_xor-bitwise 0 b, bit_xor-bitwise 0 (b / 2)) (omega arith)
bit_xor_step (suc a) b =
    rw (bit_xor-bitwise (suc a) b, bit_xor-bitwise (suc a / 2) (b / 2))
      (omega (
        arith,
        enough (λ b. b) differ a (suc a / 2) (suc a / 2) (b / 2) (omega arith) (omega arith),
        differ_lem (suc a % 2) (b % 2) (omega arith) (omega arith),
      ))

bit_xor_zero_left : (b : ℕ) → bit_xor 0 b ≡ b
bit_xor_zero_left b = bit_xor-bitwise 0 b

-- What stands on the two sides agrees on the lowest digit and, for smaller numbers, on the rest.
assoc_fuel : (f a b c : ℕ) → a ≤ f → bit_xor (bit_xor a b) c ≡ bit_xor a (bit_xor b c)
assoc_fuel f zero b c h = rw (bit_xor_zero_left b, bit_xor_zero_left (bit_xor b c)) refl
assoc_fuel zero (suc a) b c h = absurd (omega arith)
assoc_fuel (suc f) (suc a) b c h =
    let halves : bit_xor (suc a) b / 2 ≡ bit_xor (suc a / 2) (b / 2) =
      omega (arith, bit_xor_step (suc a) b) in
    let halves' : bit_xor b c / 2 ≡ bit_xor (b / 2) (c / 2) = omega (arith, bit_xor_step b c) in
    bit_xor_step (bit_xor (suc a) b) c
    ∙ rw (halves, assoc_fuel f (suc a / 2) (b / 2) (c / 2) (omega arith))
        (sym (
          bit_xor_step (suc a) (bit_xor b c)
          ∙ rw halves' (omega (arith, bit_xor_step (suc a) b, bit_xor_step b c))))

pub bit_xor_assoc : (a b c : ℕ) → bit_xor (bit_xor a b) c ≡ bit_xor a (bit_xor b c)
bit_xor_assoc a b c = assoc_fuel a a b c (omega arith)

self_fuel : (f a : ℕ) → a ≤ f → bit_xor a a ≡ 0
self_fuel f zero h = refl
self_fuel zero (suc a) h = absurd (omega arith)
self_fuel (suc f) (suc a) h =
    bit_xor_step (suc a) (suc a) ∙ omega (arith, self_fuel f (suc a / 2) (omega arith))

pub bit_xor_self : (a : ℕ) → bit_xor a a ≡ 0
bit_xor_self a = self_fuel a a (omega arith)

zero_fuel : (f a : ℕ) → a ≤ f → bit_xor a 0 ≡ a
zero_fuel f zero h = refl
zero_fuel zero (suc a) h = absurd (omega arith)
zero_fuel (suc f) (suc a) h =
    bit_xor_step (suc a) 0 ∙ omega (arith, zero_fuel f (suc a / 2) (omega arith))

pub bit_xor_zero : (a : ℕ) → bit_xor a 0 ≡ a
bit_xor_zero a = zero_fuel a a (omega arith)
