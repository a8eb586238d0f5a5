-- ===== src/UdpServer/Datagrams.antt =====
-- What is printed, and that the socket is released.
use cse522s.Base.{
  ℕ, suc, ◌<◌, ◌≡◌, ◌≢◌, refl, true, false, List, [], ◌∷◌, ◌++◌, map, length, All, if◌then◌else◌, ℤ,
  pos, negsuc, is_neg,
}
use cse522s.TcpServer.{Received, failed, bytes}
use cse522s.TcpServer.Messages.{messages, c_string-overwrite}
use cse522s.UdpServer.{buf_len, Call, print, release, receive_all, server_start}

-- An error, or a datagram of fewer than 512 bytes without a zero byte.
abbrev pub IsText : Received → Type 0
IsText (failed errno) = Unit
IsText (bytes bs) = All (λ b. b ≢ 0) bs × (length bs < buf_len)

-- How many times the socket is released.
unfoldable pub releases : List Call → ℕ
releases [] = 0
releases (release ∷ calls) = suc (releases calls)
releases (_ ∷ calls) = releases calls

module _ (behind : List ℕ) where
  -- The loop prints exactly the datagrams, in order, and passes over errors; then the socket is
  -- released.
  pub receive_all-messages :
      (answers : List Received)
      → All IsText answers
      → receive_all behind answers ≡ map print (messages answers) ++ release ∷ []
  unfolding receive_all messages
  receive_all-messages [] h = refl
  receive_all-messages (failed errno ∷ answers) h = receive_all-messages answers h.1
  receive_all-messages (bytes bs ∷ answers) h =
      rw (receive_all-messages answers h.1, c_string-overwrite behind bs buf_len h.0.0 h.0.1) refl

  releases-receive_all : (answers : List Received) → releases (receive_all behind answers) ≡ 1
  unfolding receive_all releases
  releases-receive_all [] = refl
  releases-receive_all (failed errno ∷ answers) = releases-receive_all answers
  releases-receive_all (bytes bs ∷ answers) = releases-receive_all answers

  -- For all answers: a socket that was created is released exactly once, and the variable `server` names
  -- the thread exactly when the thread got to its loop and returns 0.
  pub server_start-releases :
      (created bound : ℤ) (answers : List Received)
      → (releases (server_start behind created bound answers).calls
          ≡ (if is_neg created then 0 else 1))
        × ((server_start behind created bound answers).registered
            ≡ (if is_neg created then false else if is_neg bound then false else true))
  unfolding server_start releases
  server_start-releases (negsuc e) bound answers = (refl, refl)
  server_start-releases (pos n) (negsuc e) answers = (refl, refl)
  server_start-releases (pos n) (pos m) answers = (releases-receive_all answers, refl)
