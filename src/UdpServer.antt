-- ===== src/UdpServer.antt =====
-- final_project/udp_server.c: the thread that prints datagrams until it is stopped.
pub mod Datagrams
use cse522s.Base.{
  ℕ, Bool, true, false, Option, none, some, List, [], ◌∷◌, ◌++◌, replicate, if◌then◌else◌, ℤ, pos,
  is_neg,
}
use cse522s.TcpServer.{Received, failed, bytes, overwrite, c_string}

-- `BUF_LEN`
abbrev pub buf_len : ℕ
buf_len = 512

pub data Call : Type 0 where
  create : Call
  bind : Call
  set_timeout : Call
  print : List ℕ → Call
  release : Call

-- What `server_start` returns, whether the variable `server` still names the thread, and the calls.
pub record Outcome : Type 0 where
  pub status : ℕ
  pub registered : Bool
  pub calls : List Call

-- `behind` is what the memory behind the buffer holds.
module _ (behind : List ℕ) where
  -- One round: the buffer is cleared, then overwritten with at most `BUF_LEN` bytes of the datagram.
  abbrev pub receive : Received → List Call
  receive (failed errno) = []
  receive (bytes bs) = print (c_string (overwrite bs (replicate buf_len 0) ++ behind)) ∷ []

  -- The loop. When the answers run out, `kthread_should_stop` holds.
  unfoldable pub receive_all : List Received → List Call
  receive_all [] = release ∷ []
  receive_all (a ∷ answers) = receive a ++ receive_all answers

  -- The answers are those of `sock_create_kern` and `kernel_bind`.
  unfoldable pub server_start : (created bound : ℤ) → List Received → Outcome
  server_start created bound answers =
      let served = receive_all answers in
      if is_neg created
      then record { status = 1; registered = false; calls = create ∷ [] }
      else if is_neg bound
      then record { status = 1; registered = false; calls = create ∷ bind ∷ release ∷ [] }
      else record { status = 0; registered = true; calls = create ∷ bind ∷ set_timeout ∷ served }

-- `udp_server_init`: the error of `kthread_create`, or 0 when the thread was woken.
unfoldable pub udp_server_init : (error : Option ℤ) → ℤ
udp_server_init none = pos 0
udp_server_init (some err) = err

-- `udp_server_exit`: whether it calls `kthread_stop`.
unfoldable pub udp_server_exit : (registered : Bool) → Bool
udp_server_exit registered = registered
