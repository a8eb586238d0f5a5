-- ===== src/Barrier/Safety.antt =====
-- No thread passes the barrier before all have arrived.
use mathlib.Core.Path.{subst}
use cse522s.Base.{
  Holds, ℕ, zero, suc, ◌+◌, ◌≤◌, ◌<◌, ◌≡◌, refl, Bool, true, false, Bool-cases, inl, inr, some,
  List, [], ◌∷◌, set, get_elem?, ◌==◌, arith, All,
}
use cse522s.Barrier.{
  Thread, stamp_before, stamp_after, arrive, spin, returned, State, thread_at, Reaches,
}

abbrev pub has_arrived : Thread → Bool
has_arrived spin = true
has_arrived returned = true
has_arrived _ = false

abbrev is_waiting : Thread → ℕ
is_waiting spin = 0
is_waiting returned = 0
is_waiting _ = 1

abbrev is_through : Thread → ℕ
is_through returned = 1
is_through _ = 0

abbrev total : (Thread → ℕ) → List Thread → ℕ
total w [] = 0
total w (pc ∷ threads) = w pc + total w threads

-- What the move of one thread changes.
total-set :
    (w : Thread → ℕ) (threads : List Thread) (i : ℕ) (pc new : Thread)
    → get_elem? threads i ≡ some pc
    → total w (set threads i new) + w pc ≡ total w threads + w new
total-set w [] i pc new e = absurd (cc)
total-set w (x ∷ threads) zero pc new e = ground (arith, e)
total-set w (x ∷ threads) (suc i) pc new e = omega (arith, total-set w threads i pc new e)

arrived_lem :
    (threads : List Thread)
    → total is_waiting threads ≡ 0
    → All (λ pc. has_arrived pc ≡ true) threads
arrived_lem [] e = tt
arrived_lem (spin ∷ threads) e = (refl, arrived_lem threads (omega (arith, e)))
arrived_lem (returned ∷ threads) e = (refl, arrived_lem threads (omega (arith, e)))
arrived_lem (_ ∷ threads) e = absurd (omega (arith, e))

-- The counter is the number of threads that have not arrived, and a thread gets through when it is 0.
record Inv (s : State) : Type 0 where
  count : s.counter ≡ total is_waiting s.threads
  small : s.counter ≤ 4
  through : 0 < total is_through s.threads → s.counter ≡ 0

step-Inv :
    (i t : ℕ) (pc : Thread) (s : State)
    → get_elem? s.threads i ≡ some pc
    → Inv s
    → Holds Inv (thread_at i t pc s)
step-Inv i t stamp_before s e inv = omega (
  arith,
  inv,
  total-set is_waiting s.threads i stamp_before stamp_after e,
  total-set is_through s.threads i stamp_before stamp_after e,
)
step-Inv i t stamp_after s e inv = omega (
  arith,
  inv,
  total-set is_waiting s.threads i stamp_after arrive e,
  total-set is_through s.threads i stamp_after arrive e,
)
step-Inv i t arrive s e inv = omega (
  arith,
  inv,
  total-set is_waiting s.threads i arrive spin e,
  total-set is_through s.threads i arrive spin e,
)
step-Inv i t spin s e inv = elim (Bool-cases (s.counter == 0)) [
  | inl open_now ↦ rw open_now (
      ground (
        arith,
        inv,
        open_now,
        total-set is_waiting s.threads i spin returned e,
        total-set is_through s.threads i spin returned e,
      ))
  | inr closed ↦ rw closed inv
]
step-Inv i t returned s e inv = tt

reaches-Inv : (s : State) → Reaches s → Inv s
reaches-Inv s Reaches.here = record {
  count = refl;
  small = omega arith;
  through = λ h. absurd (omega arith);
}
reaches-Inv s (Reaches.after {s = r} i t pc p later at e) =
    subst (Holds Inv) e (step-Inv i t pc r at (reaches-Inv r p))

through-one :
    (threads : List Thread) (i : ℕ)
    → get_elem? threads i ≡ some returned
    → 0 < total is_through threads
through-one [] i e = absurd (cc)
through-one (x ∷ threads) zero e = ground (arith, e)
through-one (x ∷ threads) (suc i) e = omega (arith, through-one threads i e)

-- In every interleaving: when one of the four threads has passed the barrier, every one of them has
-- arrived there.
pub barrier-safe :
    (s : State) (i : ℕ)
    → Reaches s
    → get_elem? s.threads i ≡ some returned
    → All (λ pc. has_arrived pc ≡ true) s.threads
barrier-safe s i p e =
    let inv = reaches-Inv s p in
    arrived_lem s.threads (omega (arith, inv.count, inv.through (through-one s.threads i e)))
