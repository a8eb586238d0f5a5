-- ===== src/E2e/Calibrate/Walk.antt =====
-- A calibration thread sets the loop counts of its own core's subtasks, and nothing else.
use mathlib.Core.Path.{subst}
use cse522s.Base.{
  ℕ, Bool, ◌<◌, ◌≡◌, ◌≢◌, refl, sym, ◌∙◌, ap, List, [], ◌∷◌, Option, none, some, arith, ◌==◌,
  All-zip, length, length-set, get_or-set_self, get_or-set_ne, All, IsDistinct, Bool-cases, inl,
  inr, true,
}
use cse522s.E2e.{Table, Subtask, subtask, no_subtask}
use cse522s.E2e.Calibrate.{
  max_count, rounds, bisect, is_slow, calibrated, store_count, core_at, calibrate_from,
}
use cse522s.E2e.Calibrate.Search.{Threshold, bisect_total}
use cse522s.E2e.Priority.Starts.{walk_core}

module _ (long_bits : ℕ) (elapsed : ℕ → ℕ → ℕ) where
  -- The search for a subtask returns.
  calibrated-some : (s : Subtask) (p : ℕ) → (n : ℕ) × (calibrated long_bits elapsed s p ≡ some n)
  unfolding calibrated
  calibrated-some s p = go (bisect slow rounds 0 max_count) (bisect_total slow)
    where
      slow : ℕ → Bool
      slow mid = is_slow long_bits (elapsed p mid) s.exe_time

      go : (o : Option ℕ) → Threshold slow o → (n : ℕ) × (o ≡ some n)
      go (some n) h = (n, refl)
      go none h = absurd h

  store-frame :
      (t : Table) (p k : ℕ) (o : Option ℕ)
      → p ≢ k
      → subtask (store_count long_bits elapsed t p o) k ≡ subtask t k
  unfolding store_count
  store-frame t p k none ne = refl
  store-frame t p k (some n) ne =
      get_or-set_ne t.subtasks p k (record (subtask t p) { loop_count = n }) no_subtask ne

  store_self :
      (t : Table) (p : ℕ)
      → p < length t.subtasks
      → calibrated long_bits elapsed (subtask t p) p
        ≡ some (
            (subtask
              (store_count long_bits elapsed t p (calibrated long_bits elapsed (subtask t p) p))
              p).loop_count)
  unfolding store_count
  store_self t p lt =
      let (n, e) = calibrated-some (subtask t p) p in
      ground (
        arith,
        e,
        get_or-set_self t.subtasks p (record (subtask t p) { loop_count = n }) no_subtask lt,
      )

  length-store :
      (t : Table) (p : ℕ) (o : Option ℕ)
      → length (store_count long_bits elapsed t p o).subtasks ≡ length t.subtasks
  unfolding store_count
  length-store t p none = refl
  length-store t p (some n) = length-set t.subtasks p (record (subtask t p) { loop_count = n })

  -- The table after the first round.
  abbrev next : Table → ℕ → Table
  next t p = store_count long_bits elapsed t p (calibrated long_bits elapsed (subtask t p) p)

  walk-next :
      (c : ℕ) (t : Table) (p : ℕ) (ptrs : List ℕ)
      → All (λ q. q ≢ p) ptrs
      → walk_core (next t p) c ptrs ≡ walk_core t c ptrs
  unfolding walk_core
  walk-next c t p [] ne = refl
  walk-next c t p (q ∷ ptrs) ne = ground (
    arith,
    store-frame t p q (calibrated long_bits elapsed (subtask t p) p) (λ e. ne.0 (sym e)),
    walk-next c t p ptrs ne.1,
  )

  walk_on :
      (t : Table) (c p : ℕ) (ptrs : List ℕ)
      → ((subtask t p).core == c) ≡ true
      → walk_core t c (p ∷ ptrs) ≡ p ∷ walk_core t c ptrs
  unfolding walk_core
  walk_on t c p ptrs on = rw on

  -- What the thread does not visit stays as it was.
  pub calibrate_from-frame :
      (c : ℕ) (ptrs : List ℕ) (t : Table) (k : ℕ)
      → IsDistinct ptrs
      → All (λ p. p ≢ k) (walk_core t c ptrs)
      → subtask (calibrate_from long_bits elapsed c ptrs t).table k ≡ subtask t k
  unfolding calibrate_from core_at walk_core
  calibrate_from-frame c [] t k d ne = refl
  calibrate_from-frame c (p ∷ ptrs) t k d ne = elim (Bool-cases ((subtask t p).core == c)) [
    | inr off ↦ rw off
    | inl on ↦
        let ne' = subst (λ l. All (λ p. p ≢ k) l) (walk_on t c p ptrs on) ne in
        rw on (
          calibrate_from-frame c ptrs (next t p) k d.1
            (subst (λ l. All (λ p. p ≢ k) l) (sym (walk-next c t p ptrs d.0)) ne'.1)
          ∙ store-frame t p k (calibrated long_bits elapsed (subtask t p) p) ne'.0)
  ]

  table_on :
      (c p : ℕ) (ptrs : List ℕ) (t : Table)
      → ((subtask t p).core == c) ≡ true
      → (calibrate_from long_bits elapsed c (p ∷ ptrs) t).table
        ≡ (calibrate_from long_bits elapsed c ptrs (next t p)).table
  unfolding calibrate_from core_at
  table_on c p ptrs t on = rw on

  walk-All :
      (P : ℕ → Type 0) (t : Table) (c : ℕ) (ptrs : List ℕ) → All P ptrs → All P (walk_core t c ptrs)
  unfolding walk_core
  walk-All P t c [] h = tt
  walk-All P t c (p ∷ ptrs) h = elim (Bool-cases ((subtask t p).core == c)) [
    | inl on ↦ rw on (h.0, walk-All P t c ptrs h.1)
    | inr off ↦ rw off tt
  ]

  -- In `u`, subtask `p` has the loop count that the search finds for it in `t`.
  abbrev pub IsCounted : Table → Table → ℕ → Type 0
  IsCounted t u p = calibrated long_bits elapsed (subtask t p) p ≡ some ((subtask u p).loop_count)

  -- For distinct pointers into the array, the thread leaves in every subtask that it visits, its own
  -- among them, the loop count that the search finds for it in the table it started with.
  pub calibrate_from-counts :
      (c : ℕ) (ptrs : List ℕ) (t : Table)
      → IsDistinct ptrs
      → All (λ p. p < length t.subtasks) ptrs
      → All (IsCounted t (calibrate_from long_bits elapsed c ptrs t).table) (walk_core t c ptrs)
  calibrate_from-counts c [] t d lt = unfold walk_core in tt
  calibrate_from-counts c (p ∷ ptrs) t d lt = elim (Bool-cases ((subtask t p).core == c)) [
    | inr off ↦ unfold walk_core in rw off tt
    | inl on ↦
        let u = (calibrate_from long_bits elapsed c ptrs (next t p)).table in
        let first : IsCounted t u p =
          store_self t p lt.0
          ∙ ap (λ s. some s.loop_count)
              (sym (
                calibrate_from-frame c ptrs (next t p) p d.1
                  (walk-All (λ q. q ≢ p) (next t p) c ptrs d.0))) in
        let rest =
          All-zip
            (λ q counted ne.
              ap (λ s. calibrated long_bits elapsed s q)
                (sym (
                  store-frame t p q (calibrated long_bits elapsed (subtask t p) p)
                    (λ e. ne (sym e))))
              ∙ counted)
            (walk_core (next t p) c ptrs)
            (calibrate_from-counts c ptrs (next t p) d.1
              (rw (length-store t p (calibrated long_bits elapsed (subtask t p) p)) lt.1))
            (walk-All (λ q. q ≢ p) (next t p) c ptrs d.0) in
        rw (table_on c p ptrs t on, walk_on t c p ptrs on)
          (first, subst (All (IsCounted t u)) (walk-next c t p ptrs d.0) rest)
  ]
