-- ===== src/Matrix/Product.antt =====
-- What the three loops of the multiplication leave in each cell.
use native.Mathlib.Nat.{mul-le-mul_right}
use native.Mathlib.Decide.{ℕ_discrete}
use cse522s.Base.{ℕ, zero, suc, ◌+◌, ◌*◌, ◌≤◌, ◌<◌, ◌≡◌, ◌≢◌, ◌⊎◌, refl, ◌∙◌, ap, arith, inl, inr}
use cse522s.Matrix.{write, cell, multiply_index, multiply_cols, multiply_rows, multiply}

-- Nothing wraps up to a size of 65535.
cell_lem : (n row col : ℕ) → n < 65_536 → row < n → col < n → cell n row col ≡ row * n + col
cell_lem n row col h p q =
    let last_row : suc row * n ≤ n * n = mul-le-mul_right n (omega (arith, p)) in
    let square : n * n ≤ 65_535 * n = mul-le-mul_right n (omega (arith, h)) in
    omega (arith, last_row, square, h, q)

module _ {ℓ} {R : Type ℓ} where
  write_self : (c : ℕ → R) (p : ℕ) (v : R) → write c p v p ≡ v
  write_self c p v = ground arith

  write_ne : (c : ℕ → R) (p : ℕ) (v : R) (k : ℕ) → k ≢ p → write c p v k ≡ c k
  write_ne c p v k ne = ground (arith, ne)

module _ {ℓ} {R : Type ℓ} (add mul : R → R → R) (n : ℕ) (a b : ℕ → R) where
  -- `sum + A[row, index] * B[index, col] + …`, added from the left
  unfoldable pub dot : (rounds row col index : ℕ) → (sum : R) → R
  dot zero row col index sum = sum
  dot (suc rounds) row col index sum =
      dot rounds row col (suc index) (add sum (mul (a (row * n + index)) (b (index * n + col))))

  module _ (h : n < 65_536) where
    index_other :
        (rounds row col index : ℕ) (c : ℕ → R) (p : ℕ)
        → row < n
        → col < n
        → p ≢ row * n + col
        → multiply_index add mul n a b rounds row col index c p ≡ c p
    unfolding multiply_index
    index_other zero row col index c p r s ne = refl
    index_other (suc rounds) row col index c p r s ne = rw (cell_lem n row col h r s) (
        index_other rounds row col (suc index)
          (write c (row * n + col)
            (add (c (row * n + col)) (mul (a (cell n row index)) (b (cell n index col)))))
          p r s ne
        ∙ write_ne c (row * n + col)
            (add (c (row * n + col)) (mul (a (cell n row index)) (b (cell n index col)))) p ne)

    index_self :
        (rounds row col index : ℕ) (c : ℕ → R)
        → row < n
        → col < n
        → index + rounds ≤ n
        → multiply_index add mul n a b rounds row col index c (row * n + col)
          ≡ dot rounds row col index (c (row * n + col))
    unfolding multiply_index dot
    index_self zero row col index c r s t = refl
    index_self (suc rounds) row col index c r s t =
        let p = row * n + col in
        let sum = add (c p) (mul (a (row * n + index)) (b (index * n + col))) in
        rw
          (
            cell_lem n row col h r s,
            cell_lem n row index h r (omega (arith, t)),
            cell_lem n index col h (omega (arith, t)) s,
          )
          (index_self rounds row col (suc index) (write c p sum) r s (omega (arith, t))
            ∙ ap (dot rounds row col (suc index)) (write_self c p sum))

    cols_other :
        (rounds row col : ℕ) (c : ℕ → R) (p : ℕ)
        → row < n
        → col + rounds ≤ n
        → (p < row * n + col) ⊎ (row * n + col + rounds ≤ p)
        → multiply_cols add mul n a b rounds row col c p ≡ c p
    unfolding multiply_cols
    cols_other zero row col c p r s out = refl
    cols_other (suc rounds) row col c p r s out =
        cols_other rounds row (suc col) (multiply_index add mul n a b n row col 0 c) p r
          (omega (arith, s)) (ground (arith, out))
        ∙ index_other n row col 0 c p r (omega (arith, s)) (ground (arith, out))

    cols_at :
        (rounds row col : ℕ) (c : ℕ → R) (at : ℕ)
        → row < n
        → col + rounds ≤ n
        → col ≤ at
        → at < col + rounds
        → multiply_cols add mul n a b rounds row col c (row * n + at)
          ≡ dot n row at 0 (c (row * n + at))
    unfolding multiply_cols
    cols_at zero row col c at r s low high = absurd (omega (arith, low, high))
    cols_at (suc rounds) row col c at r s low high =
        let next = multiply_index add mul n a b n row col 0 c in
        elim (ℕ_discrete at col) [
          | yes e ↦ rw e (
              cols_other rounds row (suc col) next (row * n + col) r (omega (arith, s))
                (inl (omega arith))
              ∙ index_self n row col 0 c r (omega (arith, s)) (omega arith))
          | no ne ↦
              cols_at rounds row (suc col) next at r (omega (arith, s)) (ground (arith, low, ne))
                (omega (arith, high))
              ∙ ap (dot n row at 0) (
                  index_other n row col 0 c (row * n + at) r (omega (arith, s))
                    (ground (arith, ne)))
        ]

    rows_other :
        (rounds row : ℕ) (c : ℕ → R) (p : ℕ)
        → row + rounds ≤ n
        → (p < row * n) ⊎ ((row + rounds) * n ≤ p)
        → multiply_rows add mul n a b rounds row c p ≡ c p
    unfolding multiply_rows
    rows_other zero row c p s out = refl
    rows_other (suc rounds) row c p s out =
        let product : (row + suc rounds) * n ≡ row * n + n + rounds * n = omega arith in
        let product' : (suc row + rounds) * n ≡ row * n + n + rounds * n = omega arith in
        let next : suc row * n ≡ row * n + n = omega arith in
        rows_other rounds (suc row) (multiply_cols add mul n a b n row 0 c) p (omega (arith, s))
          (ground (arith, out, product, product', next))
        ∙ cols_other n row 0 c p (omega (arith, s)) (omega arith) (ground (arith, out, product))

    rows_at :
        (rounds row : ℕ) (c : ℕ → R) (r at : ℕ)
        → row + rounds ≤ n
        → row ≤ r
        → r < row + rounds
        → at < n
        → multiply_rows add mul n a b rounds row c (r * n + at) ≡ dot n r at 0 (c (r * n + at))
    unfolding multiply_rows
    rows_at zero row c r at s low high q = absurd (omega (arith, low, high))
    rows_at (suc rounds) row c r at s low high q =
        let done = multiply_cols add mul n a b n row 0 c in
        let next : suc row * n ≡ row * n + n = omega arith in
        elim (ℕ_discrete r row) [
          | yes e ↦ rw e (
              rows_other rounds (suc row) done (row * n + at) (omega (arith, s))
                (inl (omega (arith, next, q)))
              ∙ cols_at n row 0 c at (omega (arith, s)) (omega arith) (omega arith)
                  (omega (arith, q)))
          | no ne ↦
              let above : suc row * n ≤ r * n = mul-le-mul_right n (ground (arith, low, ne)) in
              rows_at rounds (suc row) done r at (omega (arith, s)) (ground (arith, low, ne))
                (omega (arith, high)) q
              ∙ ap (dot n r at 0) (
                  cols_other n row 0 c (r * n + at) (omega (arith, s)) (omega arith)
                    (inr (omega (arith, above, next))))
        ]

-- Up to a size of 65535, whatever the operations on numbers are: after the multiplication each cell of
-- `C` holds what it held before plus the products of its row of `A` and column of `B`, added one
-- after the other from the left; what stands behind the matrix is unchanged.
pub multiply-dot {ℓ} :
    {R : Type ℓ} (add mul : R → R → R) (n : ℕ) (a b c : ℕ → R)
    → n < 65_536
    → ((row col : ℕ)
        → row < n
        → col < n
        → multiply add mul n a b c (row * n + col)
          ≡ dot add mul n a b n row col 0 (c (row * n + col)))
      × ((k : ℕ) → n * n ≤ k → multiply add mul n a b c k ≡ c k)
unfolding multiply
multiply-dot add mul n a b c h = (
  λ row col r s.
      rows_at add mul n a b h n 0 c row col (omega arith) (omega arith) (omega (arith, r)) s,
  λ k out. rows_other add mul n a b h n 0 c k (omega arith) (inr (omega (arith, out))),
)
