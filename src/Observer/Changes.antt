-- ===== src/Observer/Changes.antt =====
-- Which processes are reported.
use cse522s.Base.{
  ℕ, zero, suc, ◌+◌, ◌≤◌, ◌<◌, ◌≡◌, ◌≢◌, ◌↔◌, refl, true, false, Bool-cases, inl, inr, [], ◌==◌,
  arith,
}
use native.Mathlib.Decide.{ℕ_discrete}
use cse522s.Observer.{
  Listing, keep_flag, is_created, is_deleted, created_lines, deleted_lines, changes,
}

cleared : (n k p : ℕ) (ys : ℕ → ℕ) → keep_flag n k p ys false ≡ false
unfolding keep_flag
cleared zero k p ys = refl
cleared (suc n) k p ys = elim (Bool-cases (p == ys k)) [
  | inl same ↦ rw same (cleared n (suc k) p ys)
  | inr other ↦ rw other (cleared n (suc k) p ys)
]

met : (n k p i : ℕ) (ys : ℕ → ℕ) → k ≤ i → i < k + n → p ≡ ys i → keep_flag n k p ys true ≡ false
unfolding keep_flag
met zero k p i ys lo hi e = absurd (omega arith)
met (suc n) k p i ys lo hi e = elim (Bool-cases (p == ys k)) [
  | inl same ↦ rw same (cleared n (suc k) p ys)
  | inr other ↦ rw other (
      met n (suc k) p i ys
        (elim (ℕ_discrete k i) [
          | yes here ↦ absurd (ground (arith, here, e, other))
          | no ne ↦ omega (arith, ne)
        ])
        (omega arith) e)
]

unmet :
    (n k p : ℕ) (ys : ℕ → ℕ)
    → ((i : ℕ) → k ≤ i → i < k + n → p ≢ ys i)
    → keep_flag n k p ys true ≡ true
unfolding keep_flag
unmet zero k p ys ne = refl
unmet (suc n) k p ys ne = elim (Bool-cases (p == ys k)) [
  | inl same ↦ absurd (ground (arith, same, ne k (omega arith) (omega arith)))
  | inr other ↦ rw other (unmet n (suc k) p ys (λ i lo hi. ne i (omega arith) (omega arith)))
]

-- The `j`-th process of the new listing is reported as created exactly when it differs from every
-- process of the old one.
pub is_created_iff :
    (old_list new_list : Listing) (j : ℕ)
    → (is_created old_list new_list j ≡ true)
      ↔ ((k : ℕ) → k < old_list.len → new_list.pid j ≢ old_list.pid k)
unfolding is_created
is_created_iff old_list new_list j = (
  λ flag k lt e. absurd (
      ground (
        arith,
        flag,
        met old_list.len 0 (new_list.pid j) k old_list.pid (omega arith) (omega arith) e,
      )),
  λ ne. unmet old_list.len 0 (new_list.pid j) old_list.pid (λ i lo hi. ne i (omega arith)),
)

created-none :
    (old_list new_list : Listing) (n j : ℕ)
    → ((i : ℕ) → j ≤ i → i < j + n → is_created old_list new_list i ≡ false)
    → created_lines old_list new_list n j ≡ []
unfolding created_lines
created-none old_list new_list zero j h = refl
created-none old_list new_list (suc n) j h =
    rw
      (
        h j (omega arith) (omega arith),
        created-none old_list new_list n (suc j) (λ i lo hi. h i (omega arith) (omega arith)),
      )
      refl

deleted-none :
    (old_list new_list : Listing) (n j : ℕ)
    → ((i : ℕ) → j ≤ i → i < j + n → is_deleted old_list new_list i ≡ false)
    → deleted_lines old_list new_list n j ≡ []
unfolding deleted_lines
deleted-none old_list new_list zero j h = refl
deleted-none old_list new_list (suc n) j h =
    rw
      (
        h j (omega arith) (omega arith),
        deleted-none old_list new_list n (suc j) (λ i lo hi. h i (omega arith) (omega arith)),
      )
      refl

-- For two equal listings nothing is reported.
pub changes-same : (listing : Listing) → changes listing listing ≡ []
unfolding changes is_created is_deleted
changes-same listing =
    rw
      (
        created-none listing listing listing.len 0
            (λ i lo hi. met listing.len 0 (listing.pid i) i listing.pid (omega arith) hi refl),
        deleted-none listing listing listing.len 0
            (λ i lo hi. met listing.len 0 (listing.pid i) i listing.pid (omega arith) hi refl),
      )
      refl
