-- ===== src/SharedMemory/Safety.antt =====
-- What every interleaving keeps: the follower reads what the leader wrote, and the region is
-- destroyed only after it was read.
use mathlib.Core.Path.{subst}
use cse522s.Base.{
  Holds, Bool-cases, inl, inr, ℕ, ◌≤◌, ◌<◌, ◌≡◌, ◌≢◌, refl, Bool, true, false, ◌&&◌, arith, ltb,
  ◌==◌,
}
use cse522s.SharedMemory.{
  Leader, Follower, State, Reaches, check, clear_delete, clear_write, clear_read, wait_follower,
  write, notify, wait_read, destroyed, refused, announce, wait_write, read, finish, left,
  shared_mem_size, fresh, leader_at, leader_step, follower_at, follower_step,
}

-- The cells that the leader has written.
abbrev written : Leader → ℕ
written (write i) = i
written notify = shared_mem_size
written wait_read = shared_mem_size
written destroyed = shared_mem_size
written _ = 0

abbrev pub has_notified : Leader → Bool
has_notified wait_read = true
has_notified destroyed = true
has_notified _ = false

abbrev pub is_destroyed : Leader → Bool
is_destroyed destroyed = true
is_destroyed _ = false

-- The cells that the follower has read.
abbrev pub copied : Follower → ℕ
copied (read i) = i
copied finish = shared_mem_size
copied left = shared_mem_size
copied _ = 0

abbrev pub is_reading : Follower → Bool
is_reading (read i) = true
is_reading finish = true
is_reading left = true
is_reading _ = false

abbrev pub has_left : Follower → Bool
has_left left = true
has_left _ = false

-- How the guards and the two positions go together.
abbrev pub Control : (write_guard read_guard delete_guard : ℕ) → Leader → Follower → Type 0
Control w r d l f =
    (written l ≤ shared_mem_size)
    × ((r ≢ 0 → has_notified l ≡ true)
        × ((is_reading f ≡ true → r ≢ 0)
            × ((d ≢ 0 → has_left f ≡ true)
                × ((is_destroyed l ≡ true → d ≢ 0)
                    × ((has_notified l ≡ true → r ≢ 0) × (has_left f ≡ true → d ≢ 0))))))

pub record Inv (values : ℕ → ℕ) (s : State) : Type 0 where
  pub control : Control s.write_guard s.read_guard s.delete_guard s.leader s.follower
  pub data_ok : (i : ℕ) → i < written s.leader → s.data_at i ≡ values i
  pub array_ok : (i : ℕ) → i < copied s.follower → s.array i ≡ values i

module _ (values : ℕ → ℕ) where
  unwritten :
      (s : State)
      → Control s.write_guard s.read_guard s.delete_guard s.leader s.follower
      → written s.leader ≡ 0
      → ((i : ℕ) → i < copied s.follower → s.array i ≡ values i)
      → Inv values s
  unwritten s control e array_ok = record {
    control = control;
    data_ok = λ i lt. absurd (omega (arith, e));
    array_ok = array_ok;
  }

  leader-Inv :
      (w r d : ℕ) (m a : ℕ → ℕ) (l : Leader) (f : Follower)
      → Inv values (record {
        write_guard = w;
        read_guard = r;
        delete_guard = d;
        data_at = m;
        array = a;
        leader = l;
        follower = f;
      })
      → Holds (Inv values) (
          leader_at values l (record {
            write_guard = w;
            read_guard = r;
            delete_guard = d;
            data_at = m;
            array = a;
            leader = l;
            follower = f;
          }))
  leader-Inv w r d m a check f inv = elim (Bool-cases ((r == 0) && ((w == 0) && (d == 0)))) [
    | inl clear ↦ rw clear (unwritten _ (ground (arith, inv.control)) refl inv.array_ok)
    | inr used ↦ rw used (unwritten _ (ground (arith, inv.control)) refl inv.array_ok)
  ]
  leader-Inv w r d m a clear_delete f inv =
      unwritten _ (ground (arith, inv.control)) refl inv.array_ok
  leader-Inv w r d m a clear_write f inv =
      unwritten _ (ground (arith, inv.control)) refl inv.array_ok
  leader-Inv w r d m a clear_read f inv =
      unwritten _ (ground (arith, inv.control)) refl inv.array_ok
  leader-Inv w r d m a wait_follower f inv = elim (Bool-cases (w == 0)) [
    | inl zero_guard ↦ rw zero_guard tt
    | inr set_guard ↦ rw set_guard (unwritten _ (ground (arith, inv.control)) refl inv.array_ok)
  ]
  leader-Inv w r d m a (write k) f inv = elim (Bool-cases (ltb k shared_mem_size)) [
    | inl more ↦ rw more (record {
      control = ground (arith, inv.control);
      data_ok = λ i lt. ground (arith, inv.data_ok i);
      array_ok = inv.array_ok;
    })
    | inr ended ↦ rw ended (record {
      control = ground (arith, inv.control);
      data_ok = λ i lt. inv.data_ok i (ground arith);
      array_ok = inv.array_ok;
    })
  ]
  leader-Inv w r d m a notify f inv = record {
    control = ground (arith, inv.control);
    data_ok = inv.data_ok;
    array_ok = inv.array_ok;
  }
  leader-Inv w r d m a wait_read f inv = elim (Bool-cases (d == 0)) [
    | inl zero_guard ↦ rw zero_guard tt
    | inr set_guard ↦ rw set_guard (record {
      control = ground (arith, inv.control);
      data_ok = inv.data_ok;
      array_ok = inv.array_ok;
    })
  ]
  leader-Inv w r d m a destroyed f inv = tt
  leader-Inv w r d m a refused f inv = tt

  follower-Inv :
      (w r d : ℕ) (m a : ℕ → ℕ) (l : Leader) (f : Follower)
      → Inv values (record {
        write_guard = w;
        read_guard = r;
        delete_guard = d;
        data_at = m;
        array = a;
        leader = l;
        follower = f;
      })
      → Holds (Inv values) (
          follower_at f (record {
            write_guard = w;
            read_guard = r;
            delete_guard = d;
            data_at = m;
            array = a;
            leader = l;
            follower = f;
          }))
  follower-Inv w r d m a l announce inv = record {
    control = ground (arith, inv.control);
    data_ok = inv.data_ok;
    array_ok = inv.array_ok;
  }
  follower-Inv w r d m a l wait_write inv = elim (Bool-cases (r == 0)) [
    | inl zero_guard ↦ rw zero_guard tt
    | inr set_guard ↦ rw set_guard (record {
      control = ground (arith, inv.control);
      data_ok = inv.data_ok;
      array_ok = λ i lt. absurd (omega arith);
    })
  ]
  follower-Inv w r d m a l (read k) inv = elim (Bool-cases (ltb k shared_mem_size)) [
    | inl more ↦ rw more (record {
      control = ground (arith, inv.control);
      data_ok = inv.data_ok;
      array_ok =
          λ i lt. ground (arith, inv.array_ok i, inv.data_ok i, all_written w r d l k inv.control);
    })
    | inr ended ↦ rw ended (record {
      control = ground (arith, inv.control);
      data_ok = inv.data_ok;
      array_ok = λ i lt. inv.array_ok i (ground arith);
    })
  ]
    where
      all_written :
          (w r d : ℕ) (l : Leader) (k : ℕ) → Control w r d l (read k) → written l ≡ shared_mem_size
      all_written w r d wait_read k c = refl
      all_written w r d destroyed k c = refl
      all_written w r d _ k c = absurd (ground (arith, c))
  follower-Inv w r d m a l finish inv = record {
    control = ground (arith, inv.control);
    data_ok = inv.data_ok;
    array_ok = inv.array_ok;
  }
  follower-Inv w r d m a l left inv = tt

  fresh-Inv : Inv values fresh
  fresh-Inv = unwritten fresh (ground arith) refl (λ i lt. absurd (omega arith))

  pub reaches-Inv : (s : State) → Reaches values fresh s → Inv values s
  unfolding leader_step follower_step
  reaches-Inv s Reaches.here = fresh-Inv
  reaches-Inv s (Reaches.by_leader {t = t} p e) = subst (Holds (Inv values)) e (
      leader-Inv t.write_guard t.read_guard t.delete_guard t.data_at t.array t.leader t.follower
        (reaches-Inv t p))
  reaches-Inv s (Reaches.by_follower {t = t} p e) = subst (Holds (Inv values)) e (
      follower-Inv t.write_guard t.read_guard t.delete_guard t.data_at t.array t.leader t.follower
        (reaches-Inv t p))

  -- In every interleaving from a fresh region, each cell that the follower has copied so far holds the
  -- value that the leader drew for it.
  pub array-values :
      (s : State) → Reaches values fresh s → (i : ℕ) → i < copied s.follower → s.array i ≡ values i
  array-values s p i lt = (reaches-Inv s p).array_ok i lt

  -- In every interleaving from a fresh region, the leader has stopped writing when the follower
  -- reads, and has not destroyed the region before the follower left it.
  pub reading-excludes :
      (s : State)
      → Reaches values fresh s
      → (is_reading s.follower ≡ true → has_notified s.leader ≡ true)
        × (is_destroyed s.leader ≡ true → has_left s.follower ≡ true)
  reading-excludes s p = ground (arith, (reaches-Inv s p).control)
