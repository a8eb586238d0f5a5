-- ===== src/Monitoring/Tests.antt =====
-- Both groups run out of memory, and then the wait fails.
use cse522s.Base.{◌≡◌, refl, true, none, some, [], ◌∷◌}
use cse522s.Monitoring.{oom_at_child1, oom_at_child2, epoll_del, failed, handle_events, wait_loop}

both :
    wait_loop 3 4 (λ fd. true) (some (3 ∷ []) ∷ some (4 ∷ []) ∷ none ∷ [])
    ≡ (oom_at_child1 ∷ epoll_del 3 ∷ oom_at_child2 ∷ epoll_del 4 ∷ [], failed)
unfolding wait_loop handle_events
both = refl
