-- ===== src/TcpServer.antt =====
-- final_project/tcp_server.c: the threads that accept connections and receive messages, as the calls
-- that they make for given answers of the kernel.
pub mod Sockets
pub mod Messages
pub mod Sharing
pub mod Alone
mod Tests
use cse522s.Base.{
  ℕ, zero, suc, ◌+◌, ◌-◌, ◌≤◌, ◌<◌, ◌≡◌, Bool, true, false, Option, none, some, List, [], ◌∷◌, ◌++◌,
  length, replicate, if◌then◌else◌, ◌==◌, ℤ, pos, negsuc, is_neg,
}

-- The calls that matter for the sockets. A client is named by the round that accepts it.
pub data Call : Type 0 where
  create_listener : Call
  bind : Call
  listen : Call
  wait : Call  -- the wait for a request
  create_client : (round : ℕ) → Call
  accept : (round : ℕ) → Call
  create_thread : (round : ℕ) → Call
  wake_up : (round : ℕ) → Call
  release_listener : Call
  release_unset : Call  -- `sock_release` of a pointer that nothing has set

-- What the kernel answers in one round of the accept loop.
pub record Round : Type 0 where
  pub queue_empty : Bool
  pub created : ℤ  -- sock_create_kern
  pub accepted : ℤ  -- kernel_accept
  pub thread_error : Option ℤ  -- IS_ERR of kthread_create

-- `err`, and the calls so far
abbrev pub Result : Type 0
Result = ℤ × List Call

abbrev pub emit : List Call → Result → Result
emit calls r = (r.0, calls ++ r.1)

-- `kthread_create` and `wake_up_process`; `rest` is what the next rounds do.
abbrev pub start_connection : ℕ → Option ℤ → Result → Result
start_connection i (some err) rest = (err, create_thread i ∷ [])
start_connection i none rest = emit (create_thread i ∷ wake_up i ∷ []) rest

-- The accept loop from round `i` on. When the answers run out, `kthread_should_stop` holds.
unfoldable pub accept_loop : ℕ → List Round → Result
accept_loop i [] = (pos 0, release_listener ∷ [])
accept_loop i (r ∷ rounds) =
    let rest = accept_loop (suc i) rounds in
    if r.queue_empty
    then emit (wait ∷ []) rest
    else if is_neg r.created
    then (r.created, create_client i ∷ release_listener ∷ [])
    else if is_neg r.accepted
    then (r.accepted, create_client i ∷ accept i ∷ [])
    else emit (create_client i ∷ accept i ∷ []) (start_connection i r.thread_error rest)

-- `ktcp_server_start_threadfn`: the answers are those of `sock_create_kern`, `bind` and `listen`.
unfoldable pub ktcp_server_start_threadfn : (create bound listening : ℤ) → List Round → Result
ktcp_server_start_threadfn create bound listening rounds =
    let served = accept_loop 0 rounds in
    if is_neg create
    then (create, create_listener ∷ release_unset ∷ [])
    else if is_neg bound
    then (bound, create_listener ∷ bind ∷ release_listener ∷ [])
    else if is_neg listening
    then (listening, create_listener ∷ bind ∷ listen ∷ release_listener ∷ [])
    else emit (create_listener ∷ bind ∷ listen ∷ []) served

-- `BUF_SIZE`
abbrev pub buf_size : ℕ
buf_size = 1024

-- What `kernel_recvmsg` answers: an error, or the bytes that it puts at the start of the buffer.
pub data Received : Type 0 where
  failed : (errno : ℕ) → Received  -- -(errno + 1)
  bytes : List ℕ → Received

-- The first bytes of the buffer are overwritten.
abbrev pub overwrite : List ℕ → List ℕ → List ℕ
overwrite [] buf = buf
overwrite (b ∷ bs) [] = []
overwrite (b ∷ bs) (c ∷ buf) = b ∷ overwrite bs buf

-- What `%s` prints: up to the first zero byte.
abbrev pub c_string : List ℕ → List ℕ
c_string [] = []
c_string (c ∷ buf) = if c == 0 then [] else c ∷ c_string buf

-- `memset(&buf, 0, BUF_SIZE)`
abbrev pub cleared : List ℕ
cleared = replicate buf_size 0

-- `ktcp_recv`: the buffer, the printed message if there is one, and the result.
pub record Receipt : Type 0 where
  pub buf : List ℕ
  pub printed : List (List ℕ)
  pub err : ℤ

abbrev pub is_zero : ℤ → Bool
is_zero (pos zero) = true
is_zero _ = false

-- `behind` is what the memory behind the buffer holds, which `%s` prints when no byte of the buffer is
-- zero.
module _ (behind : List ℕ) where
  unfoldable pub ktcp_recv : List ℕ → Received → Receipt
  ktcp_recv buf (failed errno) = record { buf = buf; printed = []; err = negsuc errno }
  ktcp_recv buf (bytes bs) =
      let filled = overwrite bs buf in
      record { buf = filled; printed = c_string (filled ++ behind) ∷ []; err = pos (length bs) }

  -- The loop of `connection_threadfn`: what it prints until `ktcp_recv` returns 0, and then the socket
  -- is released. `none`: the answers ran out and the thread still runs. The one buffer of all connections
  -- is taken to be written by this thread only; see TcpServer.Sharing.
  unfoldable pub receive_loop : List ℕ → List Received → Option (List (List ℕ))
  receive_loop buf [] = none
  receive_loop buf (a ∷ answers) =
      let r = ktcp_recv buf a in
      let rest = receive_loop cleared answers in
      if is_zero r.err
      then some r.printed
      else elim rest [ none ↦ none | some printed ↦ some (r.printed ++ printed) ]

  unfoldable pub connection_threadfn : List Received → Option (List (List ℕ))
  connection_threadfn answers = receive_loop cleared answers

-- Loading and unloading the module.
pub data LoadCall : Type 0 where
  kmalloc : LoadCall
  create_server : LoadCall
  wake_server : LoadCall
  stop_server : LoadCall
  free_service : LoadCall
  write_null : LoadCall  -- through the NULL that `kmalloc` returned

-- `ktcp_server_init`: whether `kmalloc` gives memory, and the error of `kthread_create`.
unfoldable pub ktcp_server_init : (allocated : Bool) → (thread_error : Option ℤ) → ℤ × List LoadCall
ktcp_server_init allocated (some err) = (err, kmalloc ∷ create_server ∷ [])
ktcp_server_init true none = (pos 0, kmalloc ∷ create_server ∷ wake_server ∷ [])
ktcp_server_init false none = (pos 0, kmalloc ∷ create_server ∷ write_null ∷ [])

abbrev pub ktcp_server_exit : List LoadCall
ktcp_server_exit = stop_server ∷ free_service ∷ []
