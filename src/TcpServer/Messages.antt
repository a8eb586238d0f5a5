-- ===== src/TcpServer/Messages.antt =====
-- What a connection thread prints.
use cse522s.Base.{
  ℕ, zero, suc, ◌<◌, ◌≡◌, ◌≢◌, refl, none, some, List, [], ◌∷◌, ◌++◌, length, replicate, All, arith,
}
use cse522s.TcpServer.{
  buf_size, Received, failed, bytes, overwrite, c_string, ktcp_recv, receive_loop,
  connection_threadfn,
}

-- A text that does not fill a cleared buffer is printed as it is.
pub c_string-overwrite :
    (behind bs : List ℕ) (n : ℕ)
    → All (λ b. b ≢ 0) bs
    → length bs < n
    → c_string (overwrite bs (replicate n 0) ++ behind) ≡ bs
c_string-overwrite behind [] zero text lt = absurd (omega arith)
c_string-overwrite behind [] (suc n) text lt = refl
c_string-overwrite behind (b ∷ bs) zero text lt = absurd (omega arith)
c_string-overwrite behind (b ∷ bs) (suc n) text lt =
    ground (arith, text, c_string-overwrite behind bs n text.1 (omega arith))

-- An answer that the loop goes on after: an error, or a message of 1 to 1023 bytes without a zero.
abbrev pub IsOngoing : Received → Type 0
IsOngoing (failed errno) = Unit
IsOngoing (bytes bs) = (0 < length bs) × ((length bs < buf_size) × All (λ b. b ≢ 0) bs)

-- The messages among the answers.
unfoldable pub messages : List Received → List (List ℕ)
messages [] = []
messages (failed errno ∷ answers) = messages answers
messages (bytes bs ∷ answers) = bs ∷ messages answers

module _ (behind : List ℕ) where
  -- A connection thread that receives messages of 1 to 1023 bytes without a zero byte, and errors in
  -- between, until the peer closes, ends, and has printed exactly the messages, each without a rest of
  -- an earlier one, and an empty line, while no other connection uses the buffer.
  pub connection_threadfn-messages :
      (answers : List Received) (after : List Received)
      → All IsOngoing answers
      → connection_threadfn behind (answers ++ bytes [] ∷ after)
        ≡ some (messages answers ++ [] ∷ [])
  unfolding connection_threadfn receive_loop ktcp_recv messages
  connection_threadfn-messages [] after h = refl
  connection_threadfn-messages (failed errno ∷ answers) after h =
      rw (connection_threadfn-messages answers after h.1) refl
  connection_threadfn-messages (bytes [] ∷ answers) after h = absurd (omega (arith, h.0))
  connection_threadfn-messages (bytes (b ∷ bs) ∷ answers) after h =
      rw
        (
          connection_threadfn-messages answers after h.1,
          c_string-overwrite behind (b ∷ bs) buf_size h.0.1.1 h.0.1.0,
        )
        refl

  -- A connection whose receive calls only fail is never left: the thread still runs after any number of
  -- errors.
  pub connection_threadfn-errors :
      (errno n : ℕ) → connection_threadfn behind (replicate n (failed errno)) ≡ none
  unfolding connection_threadfn receive_loop ktcp_recv
  connection_threadfn-errors errno zero = refl
  connection_threadfn-errors errno (suc n) = rw (connection_threadfn-errors errno n) refl
