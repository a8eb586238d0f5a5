-- ===== src/Realtime/Tests.antt =====
-- Nine expiries, and a thread that cannot be created.
use cse522s.Base.{◌+◌, ◌/◌, ◌≡◌, refl, some, none, [], ◌∷◌, negsuc}
use cse522s.Realtime.{
  kthread, kthread1, kthread2, create, bind, set_fifo, wake, expiries, realtime_init,
}
use cse522s.Realtime.Rates.{wakings, expiries-wakings}

-- The first thread has been woken and stays.
second_refused : realtime_init 1 0 none (some (negsuc 11)) none ≡ (
  negsuc 11,
  create kthread
      ∷ bind kthread 3
      ∷ set_fifo kthread 60
      ∷ wake kthread
      ∷ create kthread1
      ∷ bind kthread1 3
      ∷ set_fifo kthread1 50
      ∷ [],
)
unfolding realtime_init
second_refused = refl

expiries-wakings_example :
    (wakings kthread (expiries 9).0 ≡ 9)
    × (wakings kthread1 (expiries 9).0 ≡ (9 + 1) / 2)
    × (wakings kthread2 (expiries 9).0 ≡ (9 + 3) / 4)
expiries-wakings_example = expiries-wakings 9
