-- ===== src/Fifo/Example.antt =====
-- final_project/kfifo_example.c.
use cse522s.Base.{
  ℕ, zero, suc, ◌+◌, ◌%◌, Bool, true, false, Option, none, some, List, [], ◌∷◌, length, get_or,
  ◌==◌, if◌then◌else◌, ℤ, pos, negsuc,
}
use cse522s.Fifo.{Kfifo}

-- `FIFO_SIZE`
abbrev pub fifo_size : ℕ
fifo_size = 32

abbrev pub expected_result : List ℕ
expected_result =
    3 ∷ 4 ∷ 5 ∷ 6 ∷ 7 ∷ 8 ∷ 9 ∷ 0 ∷ 1 ∷ 20 ∷ 21 ∷ 22 ∷ 23 ∷ 24 ∷ 25 ∷ 26 ∷ 27 ∷ 28 ∷ 29 ∷ 30 ∷ 31
    ∷ 32 ∷ 33 ∷ 34 ∷ 35 ∷ 36 ∷ 37 ∷ 38 ∷ 39 ∷ 40 ∷ 41 ∷ 42 ∷ []

-- "hello"
abbrev pub hello : List ℕ
hello = 104 ∷ 101 ∷ 108 ∷ 108 ∷ 111 ∷ []

-- -EIO, unless all values matched and `j` is the size of the table
abbrev pub verdict : Option (Bool × ℕ) → Option ℤ
verdict none = none
verdict (some (matched, j)) =
    some (if matched then (if j == length expected_result then pos 0 else negsuc 4) else negsuc 4)

-- What `example_init` returns after the test: `created` says that `proc_create` returned an entry.
abbrev pub init_result : (created : Bool) → Option ℤ → Option ℤ
init_result created none = none
init_result created (some (negsuc e)) = some (negsuc 4)
init_result created (some (pos n)) = some (if created then pos 0 else negsuc 11)

module _ (k : Kfifo) where
  open k use {Fifo, put, get, skip, enqueue, dequeue}

  -- `for (i = 0; i != 10; i++) kfifo_put(&test, i);`, for the rounds left
  unfoldable pub put_values : (rounds i : ℕ) → Fifo → Fifo
  put_values zero i f = f
  put_values (suc rounds) i f = put_values rounds (suc i) (put f i).1

  -- `for (i = 20; kfifo_put(&test, i); i++) ;`, `none` if the fuel ran out. `i` is one byte.
  unfoldable pub fill : (fuel i : ℕ) → Fifo → Option Fifo
  fill zero i f = none
  fill (suc fuel) i f =
      let tried = put f i in
      let rest = fill fuel ((i + 1) % 256) tried.1 in if tried.0 then rest else some tried.1

  -- The loop that compares, from `j` on: whether all values matched, and the last `j`.
  unfoldable pub compare_from : (fuel j : ℕ) → Fifo → Option (Bool × ℕ)
  compare_from zero j f = none
  compare_from (suc fuel) j f =
      let rest = compare_from fuel ((j + 1) % 256) (get f).1 in
      elim (get f).0 [
        | none ↦ some (true, j)
        | some v ↦ (if v == get_or expected_result j 0 then rest else some (false, j))
      ]

  -- The statements of `testfunc` up to the filling.
  unfoldable pub prepared : Fifo → Fifo
  prepared f =
      let put_in = put_values 10 0 (enqueue f hello).1 in
      let taken = dequeue (dequeue put_in 5).1 2 in skip (enqueue taken.1 taken.0).1

  -- The comparison, on the full queue.
  unfoldable pub checked : Option Fifo → Option ℤ
  checked none = none
  checked (some full) = verdict (compare_from (suc fifo_size) 0 full)

  unfoldable pub testfunc : Fifo → Option ℤ
  testfunc f = checked (fill (suc fifo_size) 20 (prepared f))

  -- `mutex_lock_interruptible` returns 0 or not; the copy from user space may fault, and then leave
  -- any queue.
  unfoldable pub fifo_write : (locked : Bool) (fault : Option Fifo) → List ℕ → Fifo → ℤ × Fifo
  fifo_write false fault bytes f = (negsuc 511, f)
  fifo_write true (some f') bytes f = (negsuc 13, f')
  fifo_write true none bytes f = (pos (enqueue f bytes).0, (enqueue f bytes).1)

  -- The same with the bytes that the reader gets.
  unfoldable pub fifo_read :
      (locked : Bool) (fault : Option Fifo) (count : ℕ) → Fifo → (List ℕ × ℤ) × Fifo
  fifo_read false fault count f = (([], negsuc 511), f)
  fifo_read true (some f') count f = (([], negsuc 13), f')
  fifo_read true none count f =
      (((dequeue f count).0, pos (length (dequeue f count).0)), (dequeue f count).1)

  -- `example_init`
  unfoldable pub example_init : (created : Bool) → Option ℤ
  example_init created = init_result created (testfunc k.init)
