-- ===== src/TcpServer/Sharing.antt =====
-- final_project/tcp_server.c: the threads of all connections, which share the one static buffer. Each
-- access to the buffer is a step, and the steps interleave freely.
use cse522s.Base.{ℕ, ◌≡◌, ◌⊎◌, List, [], ◌∷◌, ◌++◌, length, All, ◌==◌, if◌then◌else◌}
use cse522s.TcpServer.{overwrite, c_string, cleared}

-- The next thing that the thread of a connection does with the buffer; `printing` keeps the result
-- of `kernel_recvmsg`, a number of bytes.
pub data Place : Type 0 where
  clearing : Place
  receiving : Place
  printing : (count : ℕ) → Place
  closed : Place

-- `printed` has the messages of all connections and `received` the bytes from all of them, the last
-- first.
pub record Server : Type 0 where
  pub buf : List ℕ
  pub place : ℕ → Place
  pub printed : List (List ℕ)
  pub received : List ℕ

abbrev pub move : (ℕ → Place) → ℕ → Place → ℕ → Place
move f i p k = if k == i then p else f k

-- `static unsigned char buf[BUF_SIZE]`, and no connection has begun.
abbrev pub idle : Server
idle = record { buf = cleared; place = λ i. clearing; printed = []; received = [] }

abbrev pub clear_buf : (i : ℕ) → Server → Server
clear_buf i s = record s { buf = cleared; place = move s.place i receiving }

abbrev pub receive_failed : (i : ℕ) → Server → Server
receive_failed i s = record s { place = move s.place i clearing }

abbrev pub receive_bytes : (i : ℕ) → List ℕ → Server → Server
receive_bytes i bs s = record s {
  buf = overwrite bs s.buf;
  place = move s.place i (printing (length bs));
  received = bs ++ s.received;
}

-- One of the bytes.
abbrev pub Among : ℕ → List ℕ → Type 0
Among b [] = ⊥
Among b (c ∷ bs) = (b ≡ c) ⊎ Among b bs

-- A byte of the buffer: zero, or received.
abbrev Known : List ℕ → ℕ → Type 0
Known received b = (b ≡ 0) ⊎ Among b received

-- `behind` is what the memory behind the buffer holds.
module _ (behind : List ℕ) where
  abbrev pub print_buf : (i count : ℕ) → Server → Server
  print_buf i count s = record s {
    place = move s.place i (if count == 0 then closed else clearing);
    printed = c_string (s.buf ++ behind) ∷ s.printed;
  }

  pub data Step (s : Server) : Server → Type 0 where
    clear : (i : ℕ) → s.place i ≡ clearing → Step s (clear_buf i s)
    fail : (i : ℕ) → s.place i ≡ receiving → Step s (receive_failed i s)
    receive : (i : ℕ) (bs : List ℕ) → s.place i ≡ receiving → Step s (receive_bytes i bs s)
    print : (i count : ℕ) → s.place i ≡ printing count → Step s (print_buf i count s)

  pub data Reaches (s : Server) : Server → Type 0 where
    here : Reaches s s
    after : {t u : Server} → Reaches s t → Step t u → Reaches s u

  -- A byte that was received, or stands behind the buffer.
  abbrev pub Source : List ℕ → ℕ → Type 0
  Source received b = Among b received ⊎ Among b behind

  abbrev Inv : Server → Type 0
  Inv s = All (Known s.received) s.buf × All (All (Source s.received)) s.printed
