-- ===== src/TcpClient.antt =====
-- final_project/tcp_client.c: the thread that connects, sends one buffer and waits to be stopped.
pub mod Delivery
mod Tests
use cse522s.Base.{
  ℕ, Bool, Option, none, some, List, [], ◌∷◌, ◌++◌, replicate, if◌then◌else◌, ℤ, pos, is_neg,
}
use cse522s.TcpServer.{overwrite, c_string}

-- `BUF_SIZE`
abbrev pub buf_size : ℕ
buf_size = 1024

-- "hello from client\n"
abbrev pub greeting : List ℕ
greeting =
    104 ∷ 101 ∷ 108 ∷ 108 ∷ 111 ∷ 32 ∷ 102 ∷ 114 ∷ 111 ∷ 109 ∷ 32 ∷ 99 ∷ 108 ∷ 105 ∷ 101 ∷ 110 ∷ 116
    ∷ 10 ∷ []

-- `memset(buf, 0, BUF_SIZE); strcpy(buf, …);`
unfoldable pub client_buf : List ℕ
client_buf = overwrite greeting (replicate buf_size 0)

pub data Call : Type 0 where
  create : Call
  connect : Call
  send : List ℕ → Call
  print : List ℕ → Call
  wait_for_stop : Call
  release : Call

-- `ktcp_send`, where `kernel_sendmsg` returns `sent`.
unfoldable pub ktcp_send : List ℕ → (sent : ℤ) → ℤ × List Call
ktcp_send buf sent = (sent, send buf ∷ (if is_neg sent then [] else print (c_string buf) ∷ []))

-- The answers are those of `sock_create_kern`, `kernel_connect` and `kernel_sendmsg`.
unfoldable pub ktcp_client_start_threadfn : (created connected sent : ℤ) → ℤ × List Call
unfolding ktcp_send client_buf
ktcp_client_start_threadfn created connected sent =
    if is_neg created
    then (created, create ∷ release ∷ [])
    else if is_neg connected
    then (connected, create ∷ connect ∷ release ∷ [])
    else (pos 0, create ∷ connect ∷ ((ktcp_send client_buf sent).1 ++ wait_for_stop ∷ release ∷ []))

-- `ktcp_client_init`: the error of `kthread_create`, or 0 when the thread was woken.
unfoldable pub ktcp_client_init : (error : Option ℤ) → ℤ
ktcp_client_init none = pos 0
ktcp_client_init (some err) = err
