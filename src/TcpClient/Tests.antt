-- ===== src/TcpClient/Tests.antt =====
-- The buffer in one piece of 8 bytes and one of 1016.
use cse522s.Base.{ℕ, ◌≡◌, refl, List, [], ◌∷◌, ◌++◌, map, take, drop, some, arith, pos, negsuc}
use cse522s.TcpServer.{bytes, connection_threadfn}
use cse522s.TcpClient.{greeting, client_buf, create, connect, release, ktcp_client_start_threadfn}
use cse522s.TcpClient.Delivery.{joined, connection_threadfn-client_buf}

refused :
    ktcp_client_start_threadfn (pos 0) (negsuc 110) (pos 0)
    ≡ (negsuc 110, create ∷ connect ∷ release ∷ [])
unfolding ktcp_client_start_threadfn
refused = refl

connection_threadfn-client_buf_example :
    (lines : List (List ℕ)) × (connection_threadfn []
        (map bytes (take 8 client_buf ∷ drop 8 client_buf ∷ []) ++ bytes [] ∷ [])
      ≡ some lines)
    × (joined lines ≡ greeting)
unfolding client_buf
connection_threadfn-client_buf_example =
    connection_threadfn-client_buf [] (take 8 client_buf ∷ drop 8 client_buf ∷ []) refl
      (omega arith)
