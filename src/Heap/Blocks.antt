-- ===== src/Heap/Blocks.antt =====
-- How the programs of studio10 use the blocks that the allocator gives them.
use cse522s.Base.{
  ℕ, zero, suc, ◌+◌, ◌≡◌, Bool, true, false, Option, none, some, List, [], ◌∷◌, ◌==◌, leb,
  if◌then◌else◌, ℤ, pos, negsuc, arith,
}
use cse522s.Heap.{
  Call, mallopt, malloc, free, realloc, strcpy, example_main, memory_events_main, q3_main,
}

-- A block that was allocated and not freed since.
pub record Block : Type 0 where
  pub address : ℕ
  pub size : ℕ

abbrev pub with_block : Option ℕ → ℕ → List Block → List Block
with_block none size live = live
with_block (some p) size live = record { address = p; size = size } ∷ live

abbrev pub is_live : ℕ → List Block → Bool
is_live p [] = false
is_live p (b ∷ live) = if b.address == p then true else is_live p live

abbrev pub without : ℕ → List Block → List Block
without p [] = []
without p (b ∷ live) = if b.address == p then live else b ∷ without p live

-- Whether `count` bytes fit in the block at `p`.
abbrev pub fits : ℕ → ℕ → List Block → Bool
fits p count [] = false
fits p count (b ∷ live) = if b.address == p then leb count b.size else fits p count live

-- The calls that the allocator's contract forbids: a free or realloc of what is no block, and a write
-- that no block holds.
unfoldable pub misuses : List Block → List Call → ℕ
misuses live [] = 0
misuses live (mallopt action ∷ calls) = misuses live calls
misuses live (malloc size p ∷ calls) = misuses (with_block p size live) calls
misuses live (free none ∷ calls) = misuses live calls
misuses live (free (some p) ∷ calls) =
    (if is_live p live then 0 else 1) + misuses (without p live) calls
misuses live (realloc none size q ∷ calls) = misuses (with_block q size live) calls
misuses live (realloc (some p) size none ∷ calls) =
    (if is_live p live then 0 else 1) + misuses live calls
misuses live (realloc (some p) size (some q) ∷ calls) =
    (if is_live p live then 0 else 1)
    + (let moved = misuses (record { address = q; size = size } ∷ without p live) calls in
        let same = misuses live calls in if is_live p live then moved else same)
misuses live (strcpy none count ∷ calls) = suc (misuses live calls)
misuses live (strcpy (some p) count ∷ calls) =
    (if fits p count live then 0 else 1) + misuses live calls

-- example.c gets its block and frees it twice, or stops before.
pub misuses-example_main :
    (argument : Option ℤ) (answer : ℤ) (p : Option ℕ)
    → misuses [] (example_main argument answer p).1
      ≡ (if (example_main argument answer p).0 == 0 then 1 else 0)
unfolding misuses example_main
misuses-example_main none answer none = ground arith
misuses-example_main none answer (some p) = ground arith
misuses-example_main (some action) (pos zero) none = ground arith
misuses-example_main (some action) (pos (suc zero)) none = ground arith
misuses-example_main (some action) (pos (suc (suc n))) none = ground arith
misuses-example_main (some action) (negsuc n) none = ground arith
misuses-example_main (some action) (pos zero) (some p) = ground arith
misuses-example_main (some action) (pos (suc zero)) (some p) = ground arith
misuses-example_main (some action) (pos (suc (suc n))) (some p) = ground arith
misuses-example_main (some action) (negsuc n) (some p) = ground arith

-- memory_events.c frees twice what it gets, which is harmless only for NULL.
pub misuses-memory_events_main :
    (size : ℤ) (p : ℕ)
    → (misuses [] (memory_events_main (some size) (some p)).1 ≡ 1)
      × (misuses [] (memory_events_main (some size) none).1 ≡ 0)
unfolding misuses memory_events_main
misuses-memory_events_main size p = ground arith

-- q3.c misuses the allocator five times, if its uninitialised pointer is not NULL by chance and the first
-- block is allocated.
pub misuses-q3_main :
    (wild p : ℕ) (q r : Option ℕ) → misuses [] (q3_main none (pos 1) (some wild) (some p) q r).1 ≡ 5
unfolding misuses q3_main
misuses-q3_main wild p none none = ground arith
misuses-q3_main wild p none (some r) = ground arith
misuses-q3_main wild p (some q) none = ground arith
misuses-q3_main wild p (some q) (some r) = ground arith
