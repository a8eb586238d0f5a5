-- ===== src/Fifo/Module.antt =====
-- final_project/kernel_fifo_test.c: a thread that prints what others write into the queue.
use cse522s.Base.{
  ℕ, Bool, true, false, Option, none, some, List, [], ◌∷◌, ◌++◌, take, ℤ, pos, negsuc,
}
use cse522s.Fifo.{Kfifo}

-- `BUF_SIZE`
abbrev pub buf_size : ℕ
buf_size = 128

-- "write into fifo"
abbrev pub written_text : List ℕ
written_text =
    119 ∷ 114 ∷ 105 ∷ 116 ∷ 101 ∷ 32 ∷ 105 ∷ 110 ∷ 116 ∷ 111 ∷ 32 ∷ 102 ∷ 105 ∷ 102 ∷ 111 ∷ []

-- The queue, the bytes that it has taken in, and those that it has handed out, in order.
pub record Traffic (k : Kfifo) : Type 0 where
  pub fifo : k.Fifo
  pub taken_in : List ℕ
  pub handed_out : List ℕ

module _ (k : Kfifo) where
  -- A write that is not interrupted and does not fault: the first bytes, as many as its result says.
  abbrev pub write_bytes : List ℕ → Traffic k → Traffic k
  write_bytes bytes t = record t {
    fifo = (k.enqueue t.fifo bytes).1;
    taken_in = t.taken_in ++ take (k.enqueue t.fifo bytes).0 bytes;
  }

  -- The `kfifo_out` of `read_thread_fn`, with `buf_size`, and that of `fifo_read`.
  abbrev pub read_bytes : (count : ℕ) → Traffic k → Traffic k
  read_bytes count t = record t {
    fifo = (k.dequeue t.fifo count).1;
    handed_out = t.handed_out ++ (k.dequeue t.fifo count).0;
  }

  -- `INIT_KFIFO`
  abbrev pub empty : Traffic k
  empty = record { fifo = k.init; taken_in = []; handed_out = [] }

-- The calls of `kernel_fifo_test_init` and `kernel_fifo_test_exit`.
pub data Call : Type 0 where
  create_proc : Call
  create_reader : Call
  wake_reader : Call
  create_writer : Call
  busy_wait : Call  -- the 10000001 readings of the clock
  wake_writer : Call
  remove_proc : Call
  stop_writer : Call
  stop_reader : Call

-- `created` says that `proc_create` returned an entry; an error of `kthread_create` is a number.
unfoldable pub kernel_fifo_test_init : (created : Bool) (reader writer : Option ℤ) → ℤ × List Call
kernel_fifo_test_init false reader writer = (negsuc 11, create_proc ∷ [])
kernel_fifo_test_init true (some err) writer = (err, create_proc ∷ create_reader ∷ [])
kernel_fifo_test_init true none (some err) =
    (err, create_proc ∷ create_reader ∷ wake_reader ∷ create_writer ∷ [])
kernel_fifo_test_init true none none = (
  pos 0,
  create_proc ∷ create_reader ∷ wake_reader ∷ create_writer ∷ busy_wait ∷ wake_writer ∷ [],
)

abbrev pub kernel_fifo_test_exit : List Call
kernel_fifo_test_exit = remove_proc ∷ stop_writer ∷ stop_reader ∷ []
