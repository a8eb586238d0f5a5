-- ===== src/Fifo.antt =====
-- final_project/kfifo_example.c and kernel_fifo_test.c: a byte queue of the kernel, `kfifo`, behind its
-- documented behaviour, which the two modules rely on.
pub mod Example
pub mod Module
pub mod Passes
mod Tests
use cse522s.Base.{
  ℕ, zero, suc, ◌+◌, ◌-◌, ◌≡◌, refl, Bool, true, false, Option, none, some, List, [], ◌∷◌, ◌++◌,
  length, get_elem?, take, drop, ltb, if◌then◌else◌,
}

-- What the operations do to the bytes in the queue, the oldest first.
abbrev pub queue_in : (size : ℕ) → List ℕ → List ℕ → List ℕ
queue_in size l bytes = l ++ take (size - length l) bytes

-- The kernel's `kfifo`: its operations, and what each does to the bytes. `kfifo_put` returns whether
-- there was room, `kfifo_in` how many bytes it took, `kfifo_out` the bytes it took out.
pub record Kfifo : Type 1 where
  pub Fifo : Type 0
  pub size : ℕ
  pub contents : Fifo → List ℕ
  pub init : Fifo
  pub put : Fifo → ℕ → Bool × Fifo
  pub get : Fifo → Option ℕ × Fifo
  pub peek : Fifo → Option ℕ
  pub skip : Fifo → Fifo
  pub enqueue : Fifo → List ℕ → ℕ × Fifo
  pub dequeue : Fifo → ℕ → List ℕ × Fifo
  pub init_empty : contents init ≡ []
  pub put_room : (f : Fifo) (v : ℕ) → (put f v).0 ≡ ltb (length (contents f)) size
  pub contents-put : (f : Fifo) (v : ℕ) → contents (put f v).1 ≡ queue_in size (contents f) (v ∷ [])
  pub get_first : (f : Fifo) → (get f).0 ≡ get_elem? (contents f) 0
  pub contents-get : (f : Fifo) → contents (get f).1 ≡ drop 1 (contents f)
  pub peek_first : (f : Fifo) → peek f ≡ get_elem? (contents f) 0
  pub contents-skip : (f : Fifo) → contents (skip f) ≡ drop 1 (contents f)
  pub enqueue_count :
      (f : Fifo) (bytes : List ℕ)
      → (enqueue f bytes).0 ≡ length (take (size - length (contents f)) bytes)
  pub contents-enqueue :
      (f : Fifo) (bytes : List ℕ) → contents (enqueue f bytes).1 ≡ queue_in size (contents f) bytes
  pub dequeue_bytes : (f : Fifo) (n : ℕ) → (dequeue f n).0 ≡ take n (contents f)
  pub contents-dequeue : (f : Fifo) (n : ℕ) → contents (dequeue f n).1 ≡ drop n (contents f)

-- A queue that meets the interface: the list of its bytes.
abbrev pub list_fifo : ℕ → Kfifo
list_fifo size = record {
  Fifo = List ℕ;
  size = size;
  contents = λ l. l;
  init = [];
  put = λ l v. (ltb (length l) size, queue_in size l (v ∷ []));
  get = λ l. (get_elem? l 0, drop 1 l);
  peek = λ l. get_elem? l 0;
  skip = λ l. drop 1 l;
  enqueue = λ l bytes. (length (take (size - length l) bytes), queue_in size l bytes);
  dequeue = λ l n. (take n l, drop n l);
  init_empty = refl;
  put_room = λ l v. refl;
  contents-put = λ l v. refl;
  get_first = λ l. refl;
  contents-get = λ l. refl;
  peek_first = λ l. refl;
  contents-skip = λ l. refl;
  enqueue_count = λ l bytes. refl;
  contents-enqueue = λ l bytes. refl;
  dequeue_bytes = λ l n. refl;
  contents-dequeue = λ l n. refl;
}
