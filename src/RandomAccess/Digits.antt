-- ===== src/RandomAccess/Digits.antt =====
-- The sum by `^` of the entries that the digits of a word choose.
use Prim.Native.Nat.{bit_xor}
use native.Mathlib.Nat.{pow-suc, one-le-pow, div-div-eq-div-mul}
use cse522s.Base.{
  ℕ, zero, suc, ◌+◌, ◌*◌, ◌/◌, ◌%◌, ◌^◌, ◌<◌, ◌≡◌, refl, ◌∙◌, sym, ap, ◌==◌, Bool, true, false,
  if◌then◌else◌, arith, List, get_or,
}
use cse522s.Base.Bits.{bit_xor_zero, bit_xor_assoc}
use cse522s.Base.Xor.{xors, bit_xor_again, zero_bit_xor, bit_xor_low, bit_xor_double, bit_xor_lt}
use cse522s.RandomAccess.{combine}

abbrev choose : Bool → ℕ → ℕ
choose b x = if b then x else 0

abbrev is_odd : ℕ → Bool
is_odd r = r % 2 == 1

choose-xor : (b : Bool) (x y : ℕ) → choose b (bit_xor x y) ≡ bit_xor (choose b x) (choose b y)
choose-xor true x y = refl
choose-xor false x y = refl

choose-double : (b : Bool) (x : ℕ) → choose b (2 * x) ≡ 2 * choose b x
choose-double true x = refl
choose-double false x = refl

choose_zero : (b : Bool) → choose b 0 ≡ 0
choose_zero true = refl
choose_zero false = refl

choose_lt : (b : Bool) (x y : ℕ) → x < y → choose b x < y
choose_lt true x y h = h
choose_lt false x y h = omega arith

add_chosen :
    (b : Bool) (x y z : ℕ)
    → bit_xor (if b then bit_xor x y else x) z ≡ bit_xor x (bit_xor (choose b y) z)
add_chosen true x y z = bit_xor_assoc x y z
add_chosen false x y z = ap (bit_xor x) (sym (zero_bit_xor z))

exchange_middle :
    (a b c d : ℕ) → bit_xor (bit_xor a b) (bit_xor c d) ≡ bit_xor (bit_xor a c) (bit_xor b d)
exchange_middle a b c d = simp xors

-- The sum over the first row and the rest, with the first column.
square :
    (b : Bool) (x t rest : ℕ)
    → bit_xor (choose b (bit_xor (choose b x) t)) (bit_xor (choose b t) rest)
      ≡ bit_xor (choose b x) rest
square true x t rest = bit_xor_assoc x t (bit_xor t rest) ∙ ap (bit_xor x) (bit_xor_again t rest)
square false x t rest = ap (bit_xor 0) (zero_bit_xor rest)

-- Over the lowest `n` digits of `r`.
unfoldable pub spread : (n r : ℕ) → (ℕ → ℕ) → ℕ
spread zero r m = 0
spread (suc n) r m = bit_xor (choose (is_odd r) (m 0)) (spread n (r / 2) (λ i. m (suc i)))

pub spread-cong :
    (n r : ℕ) (m m' : ℕ → ℕ) → ((i : ℕ) → i < n → m i ≡ m' i) → spread n r m ≡ spread n r m'
unfolding spread
spread-cong zero r m m' h = refl
spread-cong (suc n) r m m' h =
    rw
      (
        h 0 (omega arith),
        spread-cong n (r / 2) (λ i. m (suc i)) (λ i. m' (suc i)) (λ i p. h (suc i) (omega arith)),
      )
      refl

pub halved : (j r : ℕ) → r / 2 ^ suc j ≡ r / 2 ^ j / 2
halved j r = rw (pow-suc 2 j) (sym (div-div-eq-div-mul r (2 ^ j) 2))

add_zero : (j : ℕ) → j + 0 ≡ j
add_zero j = omega arith

-- The loop of the source computes it.
pub combine-spread :
    (n j r : ℕ) (m : List ℕ) (temp : ℕ)
    → combine n j r m temp ≡ bit_xor temp (spread n (r / 2 ^ j) (λ i. get_or m (j + i) 0))
unfolding spread combine
combine-spread zero j r m temp = sym (bit_xor_zero temp)
combine-spread (suc n) j r m temp =
    combine-spread n (suc j) r m (if is_odd (r / 2 ^ j) then bit_xor temp (get_or m j 0) else temp)
    ∙ add_chosen (is_odd (r / 2 ^ j)) temp (get_or m j 0)
        (spread n (r / 2 ^ suc j) (λ i. get_or m (suc j + i) 0))
    ∙ rw (halved j r, add_zero j)
        (ap (λ x. bit_xor temp (bit_xor (choose (is_odd (r / 2 ^ j)) (get_or m j 0)) x))
          (spread-cong n (r / 2 ^ j / 2) (λ i. get_or m (suc j + i) 0) (λ i. get_or m (j + suc i) 0)
            (λ i p. ap (λ k. get_or m k 0) (omega arith))))

spread-double : (n r : ℕ) (m : ℕ → ℕ) → spread n r (λ i. 2 * m i) ≡ 2 * spread n r m
unfolding spread
spread-double zero r m = refl
spread-double (suc n) r m =
    rw (spread-double n (r / 2) (λ i. m (suc i)), choose-double (is_odd r) (m 0))
      (bit_xor_double (choose (is_odd r) (m 0)) (spread n (r / 2) (λ i. m (suc i))))

-- A word is the sum of the powers of two of its digits.
pub spread-pow : (n r : ℕ) → r < 2 ^ n → spread n r (λ i. 2 ^ i) ≡ r
unfolding spread
spread-pow zero r h = omega arith
spread-pow (suc n) r h =
    let doubled : spread n (r / 2) (λ i. 2 ^ suc i) ≡ 2 * (r / 2) =
      spread-cong n (r / 2) (λ i. 2 ^ suc i) (λ i. 2 * 2 ^ i) (λ i p. omega (arith, pow-suc 2 i))
      ∙ spread-double n (r / 2) (λ i. 2 ^ i)
      ∙ ap (λ x. 2 * x) (spread-pow n (r / 2) (omega (arith, pow-suc 2 n))) in
    rw doubled (
      bit_xor_low (choose (is_odd r) 1) (r / 2) (choose_lt (is_odd r) 1 2 (omega arith))
      ∙ ground arith)

pub spread_lt : (k n r : ℕ) (m : ℕ → ℕ) → ((i : ℕ) → m i < 2 ^ k) → spread n r m < 2 ^ k
unfolding spread
spread_lt k zero r m h = one-le-pow k 2 (omega arith)
spread_lt k (suc n) r m h =
    bit_xor_lt k (choose (is_odd r) (m 0)) (spread n (r / 2) (λ i. m (suc i)))
      (choose_lt (is_odd r) (m 0) (2 ^ k) (h 0))
      (spread_lt k n (r / 2) (λ i. m (suc i)) (λ i. h (suc i)))

spread-choose :
    (b : Bool) (n r : ℕ) (m : ℕ → ℕ) → spread n r (λ i. choose b (m i)) ≡ choose b (spread n r m)
unfolding spread
spread-choose true n r m = refl
spread-choose false zero r m = refl
spread-choose false (suc n) r m =
    rw (spread-choose false n (r / 2) (λ i. m (suc i)))
      (bit_xor_zero (choose (is_odd r) 0) ∙ choose_zero (is_odd r))

pub spread-xor :
    (n r : ℕ) (m m' : ℕ → ℕ)
    → spread n r (λ i. bit_xor (m i) (m' i)) ≡ bit_xor (spread n r m) (spread n r m')
unfolding spread
spread-xor zero r m m' = refl
spread-xor (suc n) r m m' =
    rw (choose-xor (is_odd r) (m 0) (m' 0), spread-xor n (r / 2) (λ i. m (suc i)) (λ i. m' (suc i)))
      (exchange_middle (choose (is_odd r) (m 0)) (choose (is_odd r) (m' 0))
        (spread n (r / 2) (λ i. m (suc i))) (spread n (r / 2) (λ i. m' (suc i))))

-- In a double sum that is symmetric, what is off the diagonal cancels.
pub spread-diagonal :
    (n r : ℕ) (g : ℕ → ℕ → ℕ)
    → ((i j : ℕ) → g i j ≡ g j i)
    → spread n r (λ i. spread n r (g i)) ≡ spread n r (λ i. g i i)
unfolding spread
spread-diagonal zero r g s = refl
spread-diagonal (suc n) r g s =
    let b = is_odd r in
    let row = spread n (r / 2) (λ i. g 0 (suc i)) in
    let inner : ℕ → ℕ = λ i. spread n (r / 2) (λ j. g (suc i) (suc j)) in
    let others : spread n (r / 2) (λ i. spread (suc n) r (g (suc i)))
        ≡ bit_xor (choose b row) (spread n (r / 2) (λ i. g (suc i) (suc i))) =
      spread-xor n (r / 2) (λ i. choose b (g (suc i) 0)) inner
      ∙ rw
          (
            spread-choose b n (r / 2) (λ i. g (suc i) 0),
            spread-cong n (r / 2) (λ i. g (suc i) 0) (λ i. g 0 (suc i)) (λ i p. s (suc i) 0),
            spread-diagonal n (r / 2) (λ i j. g (suc i) (suc j)) (λ i j. s (suc i) (suc j)),
          )
          refl in
    rw others (square b (g 0 0) row (spread n (r / 2) (λ i. g (suc i) (suc i))))

-- A map that respects `^` may be taken before or after the sum.
pub spread-map :
    (k n r : ℕ) (m : ℕ → ℕ) (f : ℕ → ℕ)
    → f 0 ≡ 0
    → ((a b : ℕ) → a < 2 ^ k → b < 2 ^ k → f (bit_xor a b) ≡ bit_xor (f a) (f b))
    → ((i : ℕ) → m i < 2 ^ k)
    → f (spread n r m) ≡ spread n r (λ i. f (m i))
unfolding spread
spread-map k zero r m f e h lt = e
spread-map k (suc n) r m f e h lt =
    let b = is_odd r in
    h (choose b (m 0)) (spread n (r / 2) (λ i. m (suc i))) (choose_lt b (m 0) (2 ^ k) (lt 0))
      (spread_lt k n (r / 2) (λ i. m (suc i)) (λ i. lt (suc i)))
    ∙ rw (choose-map b (m 0), spread-map k n (r / 2) (λ i. m (suc i)) f e h (λ i. lt (suc i))) refl
  where
    choose-map : (b : Bool) (x : ℕ) → f (choose b x) ≡ choose b (f x)
    choose-map true x = refl
    choose-map false x = e
