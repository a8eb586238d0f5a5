-- ===== src/E2e/Init/Sorting.antt =====
-- The kernel's `sort(base, num, size, cmp_func, swap_func)`: what the module relies on.
use mathlib.Core.List.{Permᴰ}
use mathlib.Core.Path.{subst}
use cse522s.Base.{
  ℕ, suc, refl, ap, ◌≡◌, ◌≢◌, sym, ◌∙◌, false, List, [], ◌∷◌, ℤ, neg, is_neg, length, All,
  IsDistinct,
}

-- No element comes before one that stands to its left.
abbrev pub IsSorted : (ℕ → ℕ → ℤ) → List ℕ → Type 0
IsSorted cmp [] = Unit
IsSorted cmp (x ∷ xs) = All (λ y. is_neg (cmp y x) ≡ false) xs × IsSorted cmp xs

-- A comparison function that is an order on the elements with `P`.
pub record IsOrder (cmp : ℕ → ℕ → ℤ) (P : ℕ → Type 0) : Type 0 where
  pub opposite : (l r : ℕ) → cmp r l ≡ neg (cmp l r)
  pub transitive :
      (l r q : ℕ)
      → P l
      → P r
      → P q
      → is_neg (cmp r l) ≡ false
      → is_neg (cmp q r) ≡ false
      → is_neg (cmp q l) ≡ false

-- It permutes the array, and sorts it if the comparison function is an order on its elements.
pub record IsSort (sort : (ℕ → ℕ → ℤ) → List ℕ → List ℕ) : Type 1 where
  pub permutes : (cmp : ℕ → ℕ → ℤ) (xs : List ℕ) → Permᴰ xs (sort cmp xs)
  pub sorts :
      (cmp : ℕ → ℕ → ℤ) (P : ℕ → Type 0) (xs : List ℕ)
      → IsOrder cmp P
      → All P xs
      → IsSorted cmp (sort cmp xs)

pub All-perm : (P : ℕ → Type 0) {xs ys : List ℕ} → Permᴰ xs ys → All P xs → All P ys
All-perm P Permᴰ.nil h = tt
All-perm P (Permᴰ.cons e p) h = (subst P e h.0, All-perm P p h.1)
All-perm P (Permᴰ.swap e f) h = (subst P f h.1.0, (subst P e h.0, h.1.1))
All-perm P (Permᴰ.trans p q) h = All-perm P q (All-perm P p h)

apart-move : {a b : ℕ} (l : List ℕ) → a ≡ b → All (λ y. y ≢ a) l → All (λ y. y ≢ b) l
apart-move l e h = subst (λ x. All (λ y. y ≢ x) l) e h

pub IsDistinct-perm : {xs ys : List ℕ} → Permᴰ xs ys → IsDistinct xs → IsDistinct ys
IsDistinct-perm Permᴰ.nil h = tt
IsDistinct-perm (Permᴰ.cons {b = b} {l₁ = l} e p) h =
    (All-perm (λ y. y ≢ b) p (apart-move l e h.0), IsDistinct-perm p h.1)
IsDistinct-perm (Permᴰ.swap {l = l} e f) h =
    (((λ same. h.0.0 (f ∙ sym same ∙ sym e)), apart-move l f h.1.0), (apart-move l e h.0.1, h.1.1))
IsDistinct-perm (Permᴰ.trans p q) h = IsDistinct-perm q (IsDistinct-perm p h)

pub length-perm : {xs ys : List ℕ} → Permᴰ xs ys → length xs ≡ length ys
length-perm Permᴰ.nil = refl
length-perm (Permᴰ.cons e p) = ap suc (length-perm p)
length-perm (Permᴰ.swap e f) = refl
length-perm (Permᴰ.trans p q) = length-perm p ∙ length-perm q
