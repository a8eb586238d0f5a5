-- ===== src/Fifo/Passes.antt =====
-- The self-test computes alike on every queue that behaves as documented, and passes.
use mathlib.Core.Option
use cse522s.Base.{
  ℕ, zero, suc, ◌+◌, ◌%◌, ◌≡◌, refl, ap, ◌∙◌, Bool, Bool-cases, inl, inr, Option, none, some, [],
  length, get_elem?, take, drop, ltb, if◌then◌else◌, pos, negsuc, Option-cases,
}
use cse522s.Fifo.{Kfifo, list_fifo, queue_in}
use cse522s.Fifo.Example.{
  fifo_size, hello, put_values, fill, compare_from, verdict, prepared, checked, testfunc,
  init_result, example_init,
}

module _ (k : Kfifo) where
  open k use {Fifo, size, contents, put, get, dequeue, enqueue, skip}

  put_values-list :
      (n i : ℕ) (f : Fifo)
      → contents (put_values k n i f) ≡ put_values (list_fifo size) n i (contents f)
  unfolding put_values
  put_values-list zero i f = refl
  put_values-list (suc n) i f =
      put_values-list n (suc i) (put f i).1
      ∙ ap (put_values (list_fifo size) n (suc i)) (k.contents-put f i)

  prepared-list : (f : Fifo) → contents (prepared k f) ≡ prepared (list_fifo size) (contents f)
  unfolding prepared
  prepared-list f =
      let filled = put_values k 10 0 (enqueue f hello).1 in
      let rest = (dequeue filled 5).1 in
      let taken = dequeue rest 2 in
      let e : contents filled
          ≡ put_values (list_fifo size) 10 0 (queue_in size (contents f) hello) =
        put_values-list 10 0 (enqueue f hello).1
        ∙ ap (put_values (list_fifo size) 10 0) (k.contents-enqueue f hello) in
      let e2 : contents rest
          ≡ drop 5 (put_values (list_fifo size) 10 0 (queue_in size (contents f) hello)) =
        k.contents-dequeue filled 5 ∙ ap (drop 5) e in
      let m = drop 5 (put_values (list_fifo size) 10 0 (queue_in size (contents f) hello)) in
      let back : contents (enqueue taken.1 taken.0).1 ≡ queue_in size (drop 2 m) (take 2 m) =
        k.contents-enqueue taken.1 taken.0
        ∙ rw (k.contents-dequeue rest 2, k.dequeue_bytes rest 2, e2) refl in
      k.contents-skip (enqueue taken.1 taken.0).1 ∙ ap (drop 1) back

  fill-list :
      (n i : ℕ) (f : Fifo)
      → Option.map contents (fill k n i f) ≡ fill (list_fifo size) n i (contents f)
  unfolding fill
  fill-list zero i f = refl
  fill-list (suc n) i f =
      let next =
        fill-list n ((i + 1) % 256) (put f i).1
        ∙ ap (fill (list_fifo size) n ((i + 1) % 256)) (k.contents-put f i) in
      elim (Bool-cases (ltb (length (contents f)) size)) [
        | inl room ↦ rw (k.put_room f i, room) next
        | inr full ↦ rw (k.put_room f i, full) (ap some (k.contents-put f i))
      ]

  compare_from-list :
      (n j : ℕ) (f : Fifo) → compare_from k n j f ≡ compare_from (list_fifo size) n j (contents f)
  unfolding compare_from
  compare_from-list zero j f = refl
  compare_from-list (suc n) j f =
      let next =
        compare_from-list n ((j + 1) % 256) (get f).1
        ∙ ap (compare_from (list_fifo size) n ((j + 1) % 256)) (k.contents-get f) in
      elim (Option-cases (get_elem? (contents f) 0)) [
        | inl empty ↦ rw (compare_from, k.get_first f, empty) refl
        | inr (v, e) ↦ rw (compare_from, k.get_first f, e, next) refl
      ]

  checked-list : (o : Option Fifo) → checked k o ≡ checked (list_fifo size) (Option.map contents o)
  unfolding checked
  checked-list none = refl
  checked-list (some full) = ap verdict (compare_from-list (suc fifo_size) 0 full)

  -- The self-test gives the same result on every queue that behaves as documented as on the list of
  -- its bytes.
  pub testfunc-list : (f : Fifo) → testfunc k f ≡ testfunc (list_fifo size) (contents f)
  unfolding testfunc
  testfunc-list f =
      let full =
        fill-list (suc fifo_size) 20 (prepared k f)
        ∙ ap (fill (list_fifo size) (suc fifo_size) 20) (prepared-list f) in
      checked-list (fill k (suc fifo_size) 20 (prepared k f)) ∙ ap (checked (list_fifo size)) full

  -- With every queue of 32 bytes that behaves as documented, the self-test at loading passes: the module
  -- is loaded if `proc_create` gives it an entry, and else returns -ENOMEM.
  pub example_init-passes :
      (created : Bool)
      → size ≡ fifo_size
      → example_init k created ≡ some (if created then pos 0 else negsuc 11)
  unfolding example_init testfunc checked fill compare_from prepared put_values
  example_init-passes created e = ap (init_result created) (
      testfunc-list k.init
      ∙ ap (testfunc (list_fifo size)) k.init_empty
      ∙ ap (λ n. testfunc (list_fifo n) []) e)
