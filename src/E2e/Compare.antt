-- ===== src/E2e/Compare.antt =====
-- lab2/E2E.c, `comp_util` and `comp_rel_ddl`: what a sort needs of its comparator.
use native.Mathlib.Nat.{mul-le-mul_right, le_of_mul-le-mul_right}
use cse522s.Base.{
  List, [], ◌∷◌, All, ℕ, ◌*◌, ◌^◌, ◌≤◌, ◌<◌, ◌≡◌, ◌↔◌, ◌⊎◌, neg, is_neg, false, arith,
}
use cse522s.E2e.{Table, subtask, parent, lt64, util_key, deadline_key, comp_util, comp_rel_ddl}

-- `comp_util` called with its arguments swapped gives the opposite sign.
pub comp_util-neg : (t : Table) (l r : ℕ) → comp_util t r l ≡ neg (comp_util t l r)
unfolding comp_util
comp_util-neg t l r = ground arith

-- `comp_rel_ddl` called with its arguments swapped gives the opposite sign.
pub comp_rel_ddl-neg : (t : Table) (l r : ℕ) → comp_rel_ddl t r l ≡ neg (comp_rel_ddl t l r)
unfolding comp_rel_ddl
comp_rel_ddl-neg t l r = ground arith

-- The fields of a subtask and of its task are 31-bit, so no product of two leaves 63 bits.
abbrev pub IsSmall : Table → ℕ → Type 0
IsSmall t i =
    (((subtask t i).exe_time < 2 ^ 31) × ((parent t (subtask t i)).period < 2 ^ 31))
    × (0 < (parent t (subtask t i)).period)

-- The same for the products of three.
abbrev pub IsNarrow : Table → ℕ → Type 0
IsNarrow t i =
    (((subtask t i).cumulative_exe_time < 2 ^ 21) × ((parent t (subtask t i)).period < 2 ^ 21))
    × (((parent t (subtask t i)).exe_time < 2 ^ 21) × (0 < (parent t (subtask t i)).exe_time))

mul-lt : (a b m n : ℕ) → a < m → b < n → a * b < m * n
mul-lt a b m n h k = grind arith

key-lt : (a b : ℕ) → a < 2 ^ 31 → b < 2 ^ 31 → a * b < 2 ^ 62
key-lt a b h k = mul-lt a b (2 ^ 31) (2 ^ 31) h k

key3-lt : (a b c : ℕ) → a < 2 ^ 21 → b < 2 ^ 21 → c < 2 ^ 21 → a * b * c < 2 ^ 63
key3-lt a b c h k l = mul-lt (a * b) c (2 ^ 42) (2 ^ 21) (mul-lt a b (2 ^ 21) (2 ^ 21) h k) l

-- Fractions compared by cross products: b/q ≤ a/p and c/r ≤ b/q give c/r ≤ a/p.
mul_chain : (a b c p q r : ℕ) → 0 < q → b * p ≤ a * q → c * q ≤ b * r → c * p ≤ a * r
mul_chain a b c p q r hq h k =
    le_of_mul-le-mul_right (omega (arith, mul-le-mul_right r h, mul-le-mul_right p k)) hq

lt64-le : (a b : ℕ) → a < 2 ^ 63 → b < 2 ^ 63 → lt64 a b ≡ false → b ≤ a
lt64-le a b ha hb h = ground arith

le-lt64 : (a b : ℕ) → a < 2 ^ 63 → b < 2 ^ 63 → b ≤ a → lt64 a b ≡ false
le-lt64 a b ha hb h = ground arith

module _ (t : Table) where
  util-lt : (l r : ℕ) → IsSmall t l → IsSmall t r → util_key t (subtask t l) (subtask t r) < 2 ^ 63
  util-lt l r hl hr =
      omega (arith, key-lt (subtask t l).exe_time (parent t (subtask t r)).period hl.0.0 hr.0.1)

  comp_util_iff :
      (l r : ℕ)
      → IsSmall t l
      → IsSmall t r
      → (is_neg (comp_util t r l) ≡ false)
        ↔ (util_key t (subtask t r) (subtask t l) ≤ util_key t (subtask t l) (subtask t r))
  unfolding comp_util
  comp_util_iff l r hl hr = (
    λ h. lt64-le _ _ (util-lt l r hl hr) (util-lt r l hr hl) (ground arith),
    λ h. rw (le-lt64 _ _ (util-lt l r hl hr) (util-lt r l hr hl) h) (ground arith),
  )

  deadline-lt :
      (l r : ℕ) → IsNarrow t l → IsNarrow t r → deadline_key t (subtask t l) (subtask t r) < 2 ^ 63
  deadline-lt l r hl hr =
      key3-lt (parent t (subtask t l)).period (subtask t l).cumulative_exe_time
        (parent t (subtask t r)).exe_time hl.0.1 hl.0.0 hr.1.0

  -- The order of `comp_rel_ddl`, without the wrap of its products.
  abbrev DueFirst : ℕ → ℕ → Type 0
  DueFirst l r =
      ((subtask t l).core < (subtask t r).core)
      ⊎ (((subtask t l).core ≡ (subtask t r).core)
          × (deadline_key t (subtask t l) (subtask t r)
              ≤ deadline_key t (subtask t r) (subtask t l)))

  comp_rel_ddl_iff :
      (l r : ℕ) → IsNarrow t l → IsNarrow t r → (is_neg (comp_rel_ddl t r l) ≡ false) ↔ DueFirst l r
  unfolding comp_rel_ddl
  comp_rel_ddl_iff l r hl hr = (
    λ h. ground (arith, lt64-le _ _ (deadline-lt r l hr hl) (deadline-lt l r hl hr)),
    λ h. ground (arith, le-lt64 _ _ (deadline-lt r l hr hl) (deadline-lt l r hl hr)),
  )

  DueFirst-trans :
      (l r q : ℕ)
      → 0 < (parent t (subtask t r)).exe_time
      → DueFirst l r
      → DueFirst r q
      → DueFirst l q
  DueFirst-trans l r q pos_r lr rq = ground (
    arith,
    mul_chain ((parent t (subtask t q)).period * (subtask t q).cumulative_exe_time)
        ((parent t (subtask t r)).period * (subtask t r).cumulative_exe_time)
        ((parent t (subtask t l)).period * (subtask t l).cumulative_exe_time)
        (parent t (subtask t q)).exe_time (parent t (subtask t r)).exe_time
        (parent t (subtask t l)).exe_time,
  )

-- "Does not precede" under `comp_util` is transitive, on subtasks whose execution times and periods
-- are 31-bit, with positive periods: the comparator gives `sort` a consistent order.
pub comp_util_trans :
    (t : Table) (l r q : ℕ)
    → IsSmall t l
    → IsSmall t r
    → IsSmall t q
    → is_neg (comp_util t r l) ≡ false
    → is_neg (comp_util t q r) ≡ false
    → is_neg (comp_util t q l) ≡ false
comp_util_trans t l r q hl hr hq lr rq = (comp_util_iff t l q hl hq).1 (
    mul_chain (subtask t l).exe_time (subtask t r).exe_time (subtask t q).exe_time
      (parent t (subtask t l)).period (parent t (subtask t r)).period
      (parent t (subtask t q)).period hr.1 ((comp_util_iff t l r hl hr).0 lr)
      ((comp_util_iff t r q hr hq).0 rq))

-- "Does not precede" under `comp_rel_ddl` is transitive, where periods, cumulative and total execution times are 21-bit, so
-- that the triple products fit 63 bits, and the total execution times are positive.
pub comp_rel_ddl_trans :
    (t : Table) (l r q : ℕ)
    → IsNarrow t l
    → IsNarrow t r
    → IsNarrow t q
    → is_neg (comp_rel_ddl t r l) ≡ false
    → is_neg (comp_rel_ddl t q r) ≡ false
    → is_neg (comp_rel_ddl t q l) ≡ false
comp_rel_ddl_trans t l r q hl hr hq lr rq = (comp_rel_ddl_iff t l q hl hq).1 (
    DueFirst-trans t l r q hr.1.1 ((comp_rel_ddl_iff t l r hl hr).0 lr)
      ((comp_rel_ddl_iff t r q hr hq).0 rq))

-- What does not precede a subtask under `comp_rel_ddl` is on its core or a later one.
pub grouped-All :
    (t : Table) (p : ℕ) (ptrs : List ℕ)
    → All (λ q. is_neg (comp_rel_ddl t q p) ≡ false) ptrs
    → All (λ q. (subtask t p).core ≤ (subtask t q).core) ptrs
unfolding comp_rel_ddl
grouped-All t p [] h = tt
grouped-All t p (q ∷ ptrs) h = (ground arith, grouped-All t p ptrs h.1)
