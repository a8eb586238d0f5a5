-- ===== src/TcpServer/Alone.antt =====
-- final_project/tcp_server.c: while no other connection touches the buffer, a connection thread prints
-- what `connection_threadfn` says.
use mathlib.Core.Path.{subst}
use cse522s.Base.{
  ℕ, ◌≡◌, refl, ap, ◌∙◌, Option, none, some, List, [], ◌∷◌, ◌++◌, length, ◌==◌, if◌then◌else◌,
  arith,
}
use cse522s.TcpServer.{
  Received, failed, bytes, overwrite, c_string, cleared, ktcp_recv, receive_loop,
  connection_threadfn,
}
use cse522s.TcpServer.Sharing.{
  Server, Place, clearing, receiving, printing, closed, move, clear_buf, receive_failed,
  receive_bytes, print_buf, clear, fail, receive, print, Reaches, here, after,
}

moved : (f : ℕ → Place) (i : ℕ) (p : Place) → move f i p i ≡ p
moved f i p = ground arith

-- The messages of `printed`, one after the other, on top of those before.
abbrev pub onto : List (List ℕ) → List (List ℕ) → List (List ℕ)
onto [] before = before
onto (m ∷ printed) before = onto printed (m ∷ before)

some-value : {a b : List (List ℕ)} → some a ≡ some b → a ≡ b
some-value e = cc

-- The rest of a loop that ends, ends.
rest_ends :
    (rest : Option (List (List ℕ))) (m printed : List (List ℕ))
    → elim rest as (λ o. Option (List (List ℕ))) [ none ↦ none | some p ↦ some (m ++ p) ]
      ≡ some printed
    → (p : List (List ℕ)) × (rest ≡ some p) × (m ++ p ≡ printed)
rest_ends none m printed e = absurd (ground (arith, e))
rest_ends (some p) m printed e = (p, refl, some-value e)

module _ (behind : List ℕ) where
  Reaches_trans : {s t u : Server} → Reaches behind s t → Reaches behind t u → Reaches behind s u
  Reaches_trans r here = r
  Reaches_trans r (after q step) = after (Reaches_trans r q) step

  abbrev pub Finishes : ℕ → List (List ℕ) → Server → Type 0
  Finishes i printed s =
      (t : Server) × Reaches behind s t
      × (t.place i ≡ closed)
      × (t.printed ≡ onto printed s.printed)

  -- First some steps that print nothing.
  quiet_steps :
      {s t : Server} (i : ℕ) (printed : List (List ℕ))
      → Reaches behind s t
      → t.printed ≡ s.printed
      → Finishes i printed t
      → Finishes i printed s
  quiet_steps i printed r same (u, q, e, f) = (u, Reaches_trans r q, e, f ∙ ap (onto printed) same)

  loop-Finishes :
      (answers : List Received) (i : ℕ) (s : Server) (printed : List (List ℕ))
      → s.place i ≡ receiving
      → receive_loop behind s.buf answers ≡ some printed
      → Finishes i printed s
  unfolding receive_loop ktcp_recv
  loop-Finishes [] i s printed at e = absurd (ground (arith, e))
  loop-Finishes (failed errno ∷ answers) i s printed at e =
      let s' = receive_failed i s in
      let (p, ends, same) = rest_ends (receive_loop behind cleared answers) [] printed e in
      let reached = after (after here (fail i at)) (clear i (moved s.place i clearing)) in
      subst (λ q. Finishes i q s) same
        (quiet_steps i p reached refl
          (loop-Finishes answers i (clear_buf i s') p (moved s'.place i receiving) ends))
  loop-Finishes (bytes [] ∷ answers) i s printed at e =
      let s' = receive_bytes i [] s in
      subst (λ q. Finishes i q s) (some-value e)
        (
          print_buf behind i 0 s',
          after (after here (receive i [] at)) (print i 0 (moved s.place i (printing 0))),
          moved s'.place i closed,
          refl,
        )
  loop-Finishes (bytes (b ∷ bs) ∷ answers) i s printed at e =
      let n = length (b ∷ bs) in
      let s' = receive_bytes i (b ∷ bs) s in
      let s'' = print_buf behind i n s' in
      let m = c_string (overwrite (b ∷ bs) s.buf ++ behind) in
      let (p, ends, same) = rest_ends (receive_loop behind cleared answers) (m ∷ []) printed e in
      let reached =
        after
          (after (after here (receive i (b ∷ bs) at)) (print i n (moved s.place i (printing n))))
          (clear i (moved s'.place i (if n == 0 then closed else clearing) ∙ ground arith)) in
      let (u, r, shut, texts) =
        loop-Finishes answers i (clear_buf i s'') p (moved s''.place i receiving) ends in
      subst (λ q. Finishes i q s) same (u, Reaches_trans reached r, shut, texts)

  -- From any state in which connection `i` is about to clear the buffer, if `connection_threadfn` ends for
  -- some answers, there are steps after which the thread is done and just those messages were printed
  -- since.
  pub alone-connection_threadfn :
      (answers : List Received) (i : ℕ) (s : Server) (printed : List (List ℕ))
      → s.place i ≡ clearing
      → connection_threadfn behind answers ≡ some printed
      → Finishes i printed s
  unfolding connection_threadfn
  alone-connection_threadfn answers i s printed at e =
      quiet_steps i printed (after here (clear i at)) refl
        (loop-Finishes answers i (clear_buf i s) printed (moved s.place i receiving) e)
