-- ===== src/E2e/Threads/Update.antt =====
-- A function with one value replaced.
use native.Mathlib.Decide.{ℕ_discrete}
use mathlib.Core.Path.{subst}
use cse522s.Base.{ℕ, ◌≡◌, ◌≢◌, sym, arith}
use cse522s.E2e.Threads.{update}

module _ {ℓ} {A : Type ℓ} (f : ℕ → A) (i : ℕ) (v : A) where
  pub update_at : (k : ℕ) → k ≡ i → update f i v k ≡ v
  update_at k e = ground (arith, e)

  pub update_ne : (k : ℕ) → k ≢ i → update f i v k ≡ f k
  update_ne k ne = ground (arith, ne)

-- A property of every value, the new one included.
pub update_all {ℓ κ} :
    {A : Type ℓ} (P : ℕ → A → Type κ) (f : ℕ → A) (i : ℕ) (v : A)
    → P i v
    → ((k : ℕ) → k ≢ i → P k (f k))
    → (k : ℕ) → P k (update f i v k)
update_all P f i v at others k = elim (ℕ_discrete k i) [
  | yes e ↦ subst (P k) (sym (update_at f i v k e)) (subst (λ j. P j v) (sym e) at)
  | no ne ↦ subst (P k) (sym (update_ne f i v k ne)) (others k ne)
]
