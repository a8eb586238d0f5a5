-- ===== src/TcpServer/Sockets.antt =====
-- When the server releases its listening socket, and which clients get a thread.
use cse522s.Base.{
  ℕ, suc, ◌≡◌, ◌≢◌, ◌⊎◌, inl, inr, refl, Bool, true, false, Bool-cases, Option-cases, All, Option,
  none, some, List, [], ◌∷◌, if◌then◌else◌, arith, ℤ, pos, is_neg,
}
use cse522s.TcpServer.{
  Call, create_listener, bind, listen, wait, create_client, accept, create_thread, wake_up,
  release_listener, release_unset, Round, start_connection, accept_loop, ktcp_server_start_threadfn,
}

abbrev pub last_call : List Call → Option Call
last_call [] = none
last_call (c ∷ calls) = elim (last_call calls) [ none ↦ some c | some d ↦ some d ]

-- How often the listening socket is released.
unfoldable pub releases : List Call → ℕ
releases [] = 0
releases (release_listener ∷ calls) = suc (releases calls)
releases (_ ∷ calls) = releases calls

-- A call whose failure makes the thread return without releasing anything.
abbrev pub is_dropping : Option Call → Bool
is_dropping (some (accept i)) = true
is_dropping (some (create_thread i)) = true
is_dropping _ = false

-- The socket is released once, by the last call, or never, and then the last call is the failed one.
abbrev pub IsClosing : List Call → Type 0
IsClosing calls =
    ((last_call calls ≡ some release_listener) × (releases calls ≡ 1))
    ⊎ ((is_dropping (last_call calls) ≡ true) × (releases calls ≡ 0))

releases-cons :
    (c : Call) (calls : List Call) → releases (c ∷ []) ≡ 0 → releases (c ∷ calls) ≡ releases calls
unfolding releases
releases-cons release_listener calls other = absurd (omega (arith, other))
releases-cons _ calls other = refl

last_call-cons :
    (c : Call) (calls : List Call)
    → last_call calls ≢ none
    → last_call (c ∷ calls) ≡ last_call calls
last_call-cons c calls some_call = elim (Option-cases (last_call calls)) [
  | inl e ↦ absurd (some_call e)
  | inr (d, e) ↦ rw e refl
]

closing-last : (calls : List Call) → IsClosing calls → last_call calls ≢ none
closing-last calls (inl h) e = absurd (ground (arith, e, h))
closing-last calls (inr h) e = absurd (ground (arith, e, h))

-- A call that is not the release, before calls that are closing.
skip :
    (c : Call) (calls : List Call) → releases (c ∷ []) ≡ 0 → IsClosing calls → IsClosing (c ∷ calls)
skip c calls other h =
    rw (last_call-cons c calls (closing-last calls h), releases-cons c calls other) h

accept_loop-IsClosing : (i : ℕ) (rounds : List Round) → IsClosing (accept_loop i rounds).1
unfolding accept_loop releases
accept_loop-IsClosing i [] = inl (refl, refl)
accept_loop-IsClosing i (r ∷ rounds) = elim (Bool-cases r.queue_empty) [
  | inl empty ↦
      rw empty
        (skip wait (accept_loop (suc i) rounds).1 refl (accept_loop-IsClosing (suc i) rounds))
  | inr queued ↦ elim (Bool-cases (is_neg r.created)) [
    | inl refused ↦ rw (queued, refused) (inl (refl, refl))
    | inr created ↦ elim (Bool-cases (is_neg r.accepted)) [
      | inl refused ↦ rw (queued, created, refused) (inr (refl, refl))
      | inr accepted ↦
          rw (queued, created, accepted)
            (skip (create_client i)
              (accept i ∷ (start_connection i r.thread_error (accept_loop (suc i) rounds)).1) refl
              (skip (accept i) (start_connection i r.thread_error (accept_loop (suc i) rounds)).1
                refl (connected r.thread_error (accept_loop-IsClosing (suc i) rounds))))
    ]
  ]
]
  where
    connected :
        (e : Option ℤ)
        → IsClosing (accept_loop (suc i) rounds).1
        → IsClosing (start_connection i e (accept_loop (suc i) rounds)).1
    connected (some err) ih = inr (refl, refl)
    connected none ih =
        let next = (accept_loop (suc i) rounds).1 in
        skip (create_thread i) (wake_up i ∷ next) refl (skip (wake_up i) next refl ih)

-- For all answers of the kernel: when there is a listening socket, the server's thread releases it
-- exactly once, by its last call, or never, and then its last call is the `kernel_accept` or
-- `kthread_create` that failed. When there is none, the thread makes just two calls, the second being
-- `sock_release` of a pointer that was never set.
pub ktcp_server_start_threadfn-IsClosing :
    (create bound listening : ℤ) (rounds : List Round)
    → ((is_neg create ≡ false)
        × IsClosing (ktcp_server_start_threadfn create bound listening rounds).1)
      ⊎ ((is_neg create ≡ true)
          × ((ktcp_server_start_threadfn create bound listening rounds).1
              ≡ create_listener ∷ release_unset ∷ []))
unfolding ktcp_server_start_threadfn releases
ktcp_server_start_threadfn-IsClosing create bound listening rounds =
    elim (Bool-cases (is_neg create)) [
      | inl refused ↦ rw refused (inr (refl, refl))
      | inr created ↦ elim (Bool-cases (is_neg bound)) [
        | inl refused ↦ rw (created, refused) (inl (refl, inl (refl, refl)))
        | inr at ↦ elim (Bool-cases (is_neg listening)) [
          | inl refused ↦ rw (created, at, refused) (inl (refl, inl (refl, refl)))
          | inr ready ↦
              rw (created, at, ready)
                (inl (
                  refl,
                  skip create_listener (bind ∷ listen ∷ (accept_loop 0 rounds).1) refl (
                      skip bind (listen ∷ (accept_loop 0 rounds).1) refl (
                        skip listen (accept_loop 0 rounds).1 refl
                          (accept_loop-IsClosing 0 rounds))),
                ))
        ]
      ]
    ]

-- The rounds that accepted a client, and those whose thread was started.
unfoldable pub accepted_rounds : List Call → List ℕ
accepted_rounds [] = []
accepted_rounds (accept i ∷ calls) = i ∷ accepted_rounds calls
accepted_rounds (_ ∷ calls) = accepted_rounds calls

unfoldable pub woken_rounds : List Call → List ℕ
woken_rounds [] = []
woken_rounds (wake_up i ∷ calls) = i ∷ woken_rounds calls
woken_rounds (_ ∷ calls) = woken_rounds calls

-- Whether the accept loop goes on after the answers of a round.
abbrev pub is_served : Round → Bool
is_served r =
    if r.queue_empty
    then true
    else if is_neg r.created
    then false
    else if is_neg r.accepted
    then false
    else (elim r.thread_error [ none ↦ true | some e ↦ false ])

-- While every round is served, each client that the loop accepts gets a thread, in the same order,
-- and the loop returns 0 when it is stopped.
pub accept_loop-served :
    (i : ℕ) (rounds : List Round)
    → All (λ r. is_served r ≡ true) rounds
    → (accepted_rounds (accept_loop i rounds).1 ≡ woken_rounds (accept_loop i rounds).1)
      × ((accept_loop i rounds).0 ≡ pos 0)
unfolding accept_loop accepted_rounds woken_rounds
accept_loop-served i [] h = (refl, refl)
accept_loop-served i (r ∷ rounds) h = ground (arith, h.0, accept_loop-served (suc i) rounds h.1)
