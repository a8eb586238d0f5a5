-- ===== src/SharedMemory/Progress.antt =====
-- Where an interleaving stops, both have done their work, or the leader refused the region, or the
-- announcement came too early.
use mathlib.Core.Path.{subst}
use cse522s.Base.{Holds, inl, inr, ℕ, ◌<◌, ◌≡◌, ◌≢◌, ◌⊎◌, refl, Bool, true, false, none, arith}
use cse522s.SharedMemory.{
  Leader, Follower, State, Reaches, check, clear_delete, clear_write, clear_read, wait_follower,
  write, notify, wait_read, destroyed, refused, announce, wait_write, read, finish, left,
  shared_mem_size, fresh, leader_at, leader_step, follower_at, follower_step,
}
use cse522s.SharedMemory.Safety.{
  copied, array-values, has_notified, is_reading, has_left, is_destroyed, reaches-Inv,
}

abbrev is_refused : Leader → Bool
is_refused refused = true
is_refused _ = false

abbrev is_waiting : Leader → Bool
is_waiting wait_follower = true
is_waiting _ = false

module _ (values : ℕ → ℕ) where
  -- What a state without a next step is: the two have ended, or the leader refused the region, or it
  -- waits for an announcement that it has overwritten.
  abbrev pub Stuck : State → Type 0
  Stuck s =
      ((is_destroyed s.leader ≡ true) × (has_left s.follower ≡ true))
      ⊎ ((is_refused s.leader ≡ true) ⊎ ((is_waiting s.leader ≡ true) × (s.write_guard ≡ 0)))

  leader_none :
      (l : Leader) (s : State)
      → leader_at values l s ≡ none
      → (is_destroyed l ≡ true)
        ⊎ ((is_refused l ≡ true)
            ⊎ (((is_waiting l ≡ true) × (s.write_guard ≡ 0))
                ⊎ ((has_notified l ≡ true) × (s.delete_guard ≡ 0))))
  leader_none check s h = absurd (ground (arith, h))
  leader_none clear_delete s h = absurd (ground (arith, h))
  leader_none clear_write s h = absurd (ground (arith, h))
  leader_none clear_read s h = absurd (ground (arith, h))
  leader_none wait_follower s h = inr (inr (inl (refl, ground (arith, h))))
  leader_none (write i) s h = absurd (ground (arith, h))
  leader_none notify s h = absurd (ground (arith, h))
  leader_none wait_read s h = inr (inr (inr (refl, ground (arith, h))))
  leader_none destroyed s h = inl refl
  leader_none refused s h = inr (inl refl)

  follower_none :
      (f : Follower) (s : State)
      → follower_at f s ≡ none
      → (has_left f ≡ true) ⊎ ((is_reading f ≡ false) × (s.read_guard ≡ 0))
  follower_none announce s h = absurd (ground (arith, h))
  follower_none wait_write s h = inr (refl, ground (arith, h))
  follower_none (read i) s h = absurd (ground (arith, h))
  follower_none finish s h = absurd (ground (arith, h))
  follower_none left s h = inl refl

  left-reading : (f : Follower) → has_left f ≡ true → is_reading f ≡ true
  left-reading left h = refl
  left-reading announce h = absurd (ground (arith, h))
  left-reading wait_write h = absurd (ground (arith, h))
  left-reading (read i) h = absurd (ground (arith, h))
  left-reading finish h = absurd (ground (arith, h))

  destroyed-notified : (l : Leader) → is_destroyed l ≡ true → has_notified l ≡ true
  destroyed-notified destroyed h = refl
  destroyed-notified _ h = absurd (ground (arith, h))

  -- When neither process can move any more, in an interleaving from a fresh region, both have done
  -- their work, or the leader refused the region, or it waits while the announcement is overwritten.
  pub Stuck-cases :
      (s : State)
      → Reaches values fresh s
      → leader_step values s ≡ none
      → follower_step s ≡ none
      → Stuck s
  unfolding leader_step follower_step
  Stuck-cases s p hl hf = ground (
    arith,
    leader_none s.leader s hl,
    follower_none s.follower s hf,
    (reaches-Inv values s p).control,
    left-reading s.follower,
    destroyed-notified s.leader,
  )

-- The region after the leader's initialisation, before the follower's announcement.
abbrev pub initialised : State
initialised = record fresh { leader = wait_follower }

abbrev is_starting : Leader → Bool
is_starting check = true
is_starting clear_delete = true
is_starting clear_write = true
is_starting clear_read = true
is_starting refused = true
is_starting _ = false

abbrev has_announced : Follower → Bool
has_announced announce = false
has_announced _ = true

abbrev Live : State → Type 0
Live s = (is_starting s.leader ≡ false) × (has_announced s.follower ≡ true → s.write_guard ≢ 0)

leader-Live :
    (values : ℕ → ℕ) (l : Leader) (s : State)
    → s.leader ≡ l
    → Live s
    → Holds Live (leader_at values l s)
leader-Live values check s e h = absurd (ground (arith, e, h))
leader-Live values clear_delete s e h = absurd (ground (arith, e, h))
leader-Live values clear_write s e h = absurd (ground (arith, e, h))
leader-Live values clear_read s e h = absurd (ground (arith, e, h))
leader-Live values wait_follower s e h = ground (arith, e, h)
leader-Live values (write i) s e h = ground (arith, e, h)
leader-Live values notify s e h = ground (arith, e, h)
leader-Live values wait_read s e h = ground (arith, e, h)
leader-Live values destroyed s e h = tt
leader-Live values refused s e h = tt

follower-Live : (f : Follower) (s : State) → s.follower ≡ f → Live s → Holds Live (follower_at f s)
follower-Live announce s e h = ground (arith, e, h)
follower-Live wait_write s e h = ground (arith, e, h)
follower-Live (read i) s e h = ground (arith, e, h)
follower-Live finish s e h = ground (arith, e, h)
follower-Live left s e h = tt

module _ (values : ℕ → ℕ) where
  reaches-Live : (s : State) → Reaches values initialised s → Live s
  unfolding leader_step follower_step
  reaches-Live s Reaches.here = (refl, λ h. absurd (ground (arith, h)))
  reaches-Live s (Reaches.by_leader {t = t} p e) =
      subst (Holds Live) e (leader-Live values t.leader t refl (reaches-Live t p))
  reaches-Live s (Reaches.by_follower {t = t} p e) =
      subst (Holds Live) e (follower-Live t.follower t refl (reaches-Live t p))

  before : Reaches values fresh initialised
  unfolding leader_step
  before =
      Reaches.by_leader
        (Reaches.by_leader (Reaches.by_leader (Reaches.by_leader Reaches.here refl) refl) refl) refl

  join : {s t : State} → Reaches values fresh s → Reaches values s t → Reaches values fresh t
  join p Reaches.here = p
  join p (Reaches.by_leader q e) = Reaches.by_leader (join p q) e
  join p (Reaches.by_follower q e) = Reaches.by_follower (join p q) e

  announced : (f : Follower) (s : State) → follower_at f s ≡ none → has_announced f ≡ true
  announced announce s h = absurd (ground (arith, h))
  announced _ s h = refl

  left-copied : (f : Follower) → has_left f ≡ true → copied f ≡ shared_mem_size
  left-copied left h = refl
  left-copied _ h = absurd (ground (arith, h))

  refused-starting : (l : Leader) → is_refused l ≡ true → is_starting l ≡ true
  refused-starting refused h = refl
  refused-starting _ h = absurd (ground (arith, h))

  -- When the follower starts after the leader's initialisation, an interleaving stops only where the
  -- leader has destroyed the region and the follower has left with all the leader's values.
  pub completes :
      (s : State)
      → Reaches values initialised s
      → leader_step values s ≡ none
      → follower_step s ≡ none
      → (is_destroyed s.leader ≡ true)
        × ((has_left s.follower ≡ true) × ((i : ℕ) → i < shared_mem_size → s.array i ≡ values i))
  unfolding follower_step
  completes s p hl hf = (
    ended.0,
    (
      ended.1,
      λ i lt.
          array-values values s (join before p) i (omega (arith, left-copied s.follower ended.1)),
    ),
  )
    where
      ended : (is_destroyed s.leader ≡ true) × (has_left s.follower ≡ true)
      ended = ground (
        arith,
        Stuck-cases values s (join before p) hl hf,
        reaches-Live s p,
        announced s.follower s hf,
        refused-starting s.leader,
      )
