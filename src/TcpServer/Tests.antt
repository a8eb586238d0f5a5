-- ===== src/TcpServer/Tests.antt =====
-- A server that is asked, fails to accept, or is stopped, and a connection with two messages.
use cse522s.Base.{
  ◌≡◌, ◌⊎◌, refl, true, false, none, some, List, [], ◌∷◌, ◌++◌, arith, replicate, pos, negsuc,
}
use cse522s.TcpServer.{
  create_listener, release_unset, Received, failed, bytes, Round, accept_loop,
  ktcp_server_start_threadfn, connection_threadfn,
}
use cse522s.TcpServer.Messages.{messages, connection_threadfn-messages, connection_threadfn-errors}
use cse522s.TcpServer.Sharing
use cse522s.TcpServer.Sharing.{Server, clear_buf, receive_bytes, print_buf, receive_failed}
use cse522s.TcpServer.Alone.{Finishes, alone-connection_threadfn}
use cse522s.TcpServer.Sockets.{
  IsClosing, accepted_rounds, woken_rounds, ktcp_server_start_threadfn-IsClosing,
  accept_loop-served,
}

abbrev idle : Round
idle = record { queue_empty = true; created = pos 0; accepted = pos 0; thread_error = none }

abbrev asked : Round
asked = record { queue_empty = false; created = pos 0; accepted = pos 0; thread_error = none }

abbrev dropped : Round
dropped = record { queue_empty = false; created = pos 0; accepted = negsuc 10; thread_error = none }

ktcp_server_start_threadfn-IsClosing_example :
    ((false ≡ false)
      × IsClosing
          (ktcp_server_start_threadfn (pos 0) (pos 0) (pos 0) (idle ∷ asked ∷ dropped ∷ [])).1)
    ⊎ ((false ≡ true)
        × ((ktcp_server_start_threadfn (pos 0) (pos 0) (pos 0) (idle ∷ asked ∷ dropped ∷ [])).1
            ≡ create_listener ∷ release_unset ∷ []))
ktcp_server_start_threadfn-IsClosing_example =
    ktcp_server_start_threadfn-IsClosing (pos 0) (pos 0) (pos 0) (idle ∷ asked ∷ dropped ∷ [])

accept_loop-served_twice :
    (accepted_rounds (accept_loop 0 (idle ∷ asked ∷ asked ∷ [])).1
      ≡ woken_rounds (accept_loop 0 (idle ∷ asked ∷ asked ∷ [])).1)
    × ((accept_loop 0 (idle ∷ asked ∷ asked ∷ [])).0 ≡ pos 0)
accept_loop-served_twice =
    accept_loop-served 0 (idle ∷ asked ∷ asked ∷ []) (refl, (refl, (refl, tt)))

abbrev answers : List Received
answers = bytes (72 ∷ 105 ∷ []) ∷ failed 103 ∷ bytes (33 ∷ []) ∷ []

connection_threadfn-messages_example :
    connection_threadfn [] (answers ++ bytes [] ∷ []) ≡ some (messages answers ++ [] ∷ [])
connection_threadfn-messages_example = connection_threadfn-messages [] answers [] (omega arith)

connection_threadfn-errors_example : connection_threadfn [] (replicate 3 (failed 103)) ≡ none
connection_threadfn-errors_example = connection_threadfn-errors [] 103 3

-- Two connections: between the receiving and the printing of the first, the second receives.
abbrev both_cleared : Server
both_cleared = clear_buf 1 (clear_buf 0 Sharing.idle)

abbrev both_received : Server
both_received = receive_bytes 1 (33 ∷ []) (receive_bytes 0 (72 ∷ 105 ∷ []) both_cleared)

mixed_message : (print_buf [] 0 2 both_received).printed ≡ (33 ∷ 105 ∷ []) ∷ []
mixed_message = refl

-- The second connection has received; then the first begins and goes on alone.
alone-connection_threadfn_first :
    Finishes [] 0
      (messages answers ++ [] ∷ [])
      (receive_bytes 1 (33 ∷ []) (clear_buf 1 Sharing.idle))
alone-connection_threadfn_first =
    alone-connection_threadfn [] (answers ++ bytes [] ∷ []) 0
      (receive_bytes 1 (33 ∷ []) (clear_buf 1 Sharing.idle)) (messages answers ++ [] ∷ []) refl
      (connection_threadfn-messages [] answers [] (omega arith))
