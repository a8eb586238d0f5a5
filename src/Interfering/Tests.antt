-- ===== src/Interfering/Tests.antt =====
-- A bad policy, and a period of zero.
use cse522s.Base.{◌≡◌, refl, none, [], ◌∷◌, negsuc}
use cse522s.Interfering.{Parameters, init_timer, read_clock, interfering_init, thread_fn}

abbrev parameters : Parameters
parameters = record { input_policy = 3; priority = 50; core = 1; period = 0; num_iter = 1 }

bad_policy : interfering_init 32 parameters none ≡ (negsuc 0, init_timer ∷ [])
unfolding interfering_init
bad_policy = refl

-- With period 0 the thread does not wait for the timer.
busy : thread_fn parameters 2 ≡ read_clock ∷ read_clock ∷ read_clock ∷ read_clock ∷ []
unfolding thread_fn cse522s.Interfering.task_fn cse522s.Interfering.read_clocks
busy = refl
