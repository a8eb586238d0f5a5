-- ===== src/E2e/Insertion.antt =====
-- A sort that meets `IsSort`: the assumption on the kernel's `sort` can be met.
use mathlib.Core.List.{Permᴰ}
use cse522s.Base.{
  ℕ, ◌≡◌, refl, true, false, List, [], ◌∷◌, ℤ, is_neg, if◌then◌else◌, All, Bool-cases, inl, inr,
  arith,
}
use cse522s.E2e.Init.Sorting.{IsSorted, IsOrder, IsSort, All-perm}

insert : (ℕ → ℕ → ℤ) → ℕ → List ℕ → List ℕ
insert cmp x [] = x ∷ []
insert cmp x (y ∷ ys) =
    let rest = insert cmp x ys in if is_neg (cmp y x) then y ∷ rest else x ∷ y ∷ ys

unfoldable pub insertion_sort : (ℕ → ℕ → ℤ) → List ℕ → List ℕ
unfolding insert
insertion_sort cmp [] = []
insertion_sort cmp (x ∷ xs) = insert cmp x (insertion_sort cmp xs)

perm-refl : (xs : List ℕ) → Permᴰ xs xs
perm-refl [] = Permᴰ.nil
perm-refl (x ∷ xs) = Permᴰ.cons refl (perm-refl xs)

insert-perm : (cmp : ℕ → ℕ → ℤ) (x : ℕ) (ys : List ℕ) → Permᴰ (x ∷ ys) (insert cmp x ys)
unfolding insert
insert-perm cmp x [] = perm-refl (x ∷ [])
insert-perm cmp x (y ∷ ys) = elim (Bool-cases (is_neg (cmp y x))) [
  | inr stop ↦ rw stop (perm-refl (x ∷ y ∷ ys))
  | inl go ↦ rw go (Permᴰ.trans (Permᴰ.swap refl refl) (Permᴰ.cons refl (insert-perm cmp x ys)))
]

sort-perm : (cmp : ℕ → ℕ → ℤ) (xs : List ℕ) → Permᴰ xs (insertion_sort cmp xs)
unfolding insertion_sort
sort-perm cmp [] = Permᴰ.nil
sort-perm cmp (x ∷ xs) =
    Permᴰ.trans (Permᴰ.cons refl (sort-perm cmp xs)) (insert-perm cmp x (insertion_sort cmp xs))

module _ (cmp : ℕ → ℕ → ℤ) (P : ℕ → Type 0) (order : IsOrder cmp P) where
  not_before : (x y : ℕ) → is_neg (cmp y x) ≡ true → is_neg (cmp x y) ≡ false
  not_before x y h = ground (arith, order.opposite y x)

  behind :
      (x y : ℕ) (zs : List ℕ)
      → P x
      → P y
      → All P zs
      → is_neg (cmp y x) ≡ false
      → All (λ z. is_neg (cmp z y) ≡ false) zs
      → All (λ z. is_neg (cmp z x) ≡ false) zs
  behind x y [] px py ps h hs = tt
  behind x y (z ∷ zs) px py ps h hs =
      (order.transitive x y z px py ps.0 h hs.0, behind x y zs px py ps.1 h hs.1)

  insert-IsSorted :
      (x : ℕ) (ys : List ℕ) → P x → All P ys → IsSorted cmp ys → IsSorted cmp (insert cmp x ys)
  unfolding insert
  insert-IsSorted x [] px ps s = (tt, tt)
  insert-IsSorted x (y ∷ ys) px ps s = elim (Bool-cases (is_neg (cmp y x))) [
    | inr stop ↦ rw stop ((stop, behind x y ys px ps.0 ps.1 stop s.0), s)
    | inl go ↦ rw go (
      All-perm (λ z. is_neg (cmp z y) ≡ false) (insert-perm cmp x ys) (not_before x y go, s.0),
      insert-IsSorted x ys px ps.1 s.1,
    )
  ]

  sort-IsSorted : (xs : List ℕ) → All P xs → IsSorted cmp (insertion_sort cmp xs)
  unfolding insertion_sort
  sort-IsSorted [] ps = tt
  sort-IsSorted (x ∷ xs) ps =
      insert-IsSorted x (insertion_sort cmp xs) ps.0 (All-perm P (sort-perm cmp xs) ps.1)
        (sort-IsSorted xs ps.1)

pub insertion_sort-IsSort : IsSort insertion_sort
insertion_sort-IsSort = record {
  permutes = sort-perm;
  sorts = λ cmp P xs order ps. sort-IsSorted cmp P order xs ps;
}
