-- ===== src/Heap/Tests.antt =====
-- Runs of the programs of studio10.
use cse522s.Base.{◌≡◌, refl, some, none, pos, negsuc, [], ◌∷◌}
use cse522s.Heap.{malloc, free, memory_events_main, example_main, mallopt}

-- 4194304 kB is a request of 0 bytes.
memory_events_wraps :
    (memory_events_main (some (pos 4_194_304)) (some 64)).1
    ≡ malloc 0 (some 64) ∷ free (some 64) ∷ free (some 64) ∷ []
unfolding memory_events_main
memory_events_wraps = refl

-- -1 kB is a request of 4 GB less 1 kB.
memory_events_negative :
    (memory_events_main (some (negsuc 0)) none).1
    ≡ malloc 4_294_966_272 none ∷ free none ∷ free none ∷ []
unfolding memory_events_main
memory_events_negative = refl

example_stops : example_main (some (pos 3)) (pos 0) (some 64) ≡ (1, mallopt (pos 3) ∷ [])
unfolding example_main
example_stops = refl
