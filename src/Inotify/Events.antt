-- ===== src/Inotify/Events.antt =====
-- The watcher handles the events that the kernel put into the buffer, one after the other.
use cse522s.Base.{
  ℕ, zero, suc, ◌+◌, ◌*◌, ◌/◌, ◌%◌, ◌^◌, ◌<◌, ◌≤◌, ◌≡◌, refl, ◌∙◌, sym, ap, List, [], ◌∷◌, ◌++◌,
  map, length, length-append, take, drop, arith, All,
}
use cse522s.Inotify.{
  System, Event, Line, State, Result, Outcome, running, returned, overflown, print, handle, proceed,
  word, event_at, read_events, watch_reads,
}

-- An event as the kernel writes it.
abbrev pub word_bytes : ℕ → List ℕ
word_bytes n = n % 256 ∷ n / 256 % 256 ∷ n / 65536 % 256 ∷ n / 16777216 % 256 ∷ []

abbrev pub event_bytes : Event → List ℕ
event_bytes e =
    word_bytes e.wd
    ++ (word_bytes e.mask ++ (word_bytes e.cookie ++ (word_bytes (length e.name) ++ e.name)))

unfoldable pub buffer : List Event → List ℕ
buffer [] = []
buffer (e ∷ events) = event_bytes e ++ buffer events

abbrev pub IsEvent : Event → Type 0
IsEvent e = (e.wd < 2 ^ 32) × (e.mask < 2 ^ 32) × (e.cookie < 2 ^ 32) × (length e.name < 2 ^ 32)

-- The events one after the other, with no buffer.
unfoldable pub handle_events : System → List Event → State → Result
handle_events s [] st = record { lines = []; outcome = running st }
handle_events s (e ∷ events) st = proceed (handle s st e) (handle_events s events)

unfoldable pub concat : List (List Event) → List Event
concat [] = []
concat (events ∷ reads) = events ++ concat reads

bytes_word :
    (n : ℕ)
    → n < 2 ^ 32
    → n % 256 + 256 * (n / 256 % 256 + 256 * (n / 65536 % 256 + 256 * (n / 16777216 % 256))) ≡ n
bytes_word n h = omega (arith, h)

take-append : (xs ys : List ℕ) → take (length xs) (xs ++ ys) ≡ xs
take-append [] ys = refl
take-append (x ∷ xs) ys = ap (λ t. x ∷ t) (take-append xs ys)

drop-append : (xs ys : List ℕ) → drop (length xs) (xs ++ ys) ≡ ys
drop-append [] ys = refl
drop-append (x ∷ xs) ys = drop-append xs ys

drop_nil : (n : ℕ) → drop {A = ℕ} n [] ≡ []
drop_nil zero = refl
drop_nil (suc n) = refl

drop_add : (m n : ℕ) (xs : List ℕ) → drop (m + n) xs ≡ drop n (drop m xs)
drop_add zero n xs = ap (λ k. drop k xs) {y = n} (omega arith)
drop_add (suc m) n [] = drop_nil (suc m + n) ∙ sym (drop_nil n)
drop_add (suc m) n (x ∷ xs) =
    ap (λ k. drop k (x ∷ xs)) {x = suc m + n} {y = suc (m + n)} (omega arith) ∙ drop_add m n xs

event_at-bytes : (e : Event) (rest : List ℕ) → IsEvent e → event_at (event_bytes e ++ rest) ≡ e
event_at-bytes e rest h =
    rw
      (
        bytes_word e.wd h.0,
        bytes_word e.mask h.1,
        bytes_word e.cookie h.2,
        bytes_word (length e.name) h.3,
        take-append e.name rest,
      )
      refl

drop-bytes :
    (e : Event) (rest : List ℕ)
    → IsEvent e
    → drop (16 + word (drop 12 (event_bytes e ++ rest))) (event_bytes e ++ rest) ≡ rest
drop-bytes e rest h =
    rw (bytes_word (length e.name) h.3)
      (drop_add 16 (length e.name) (event_bytes e ++ rest) ∙ drop-append e.name rest)

append_assoc {ℓ} : {A : Type ℓ} (xs ys zs : List A) → (xs ++ ys) ++ zs ≡ xs ++ (ys ++ zs)
append_assoc [] ys zs = refl
append_assoc (x ∷ xs) ys zs = ap (λ t. x ∷ t) (append_assoc xs ys zs)

next-event :
    (s : System) (rounds : ℕ) (e : Event) (rest : List ℕ) (st : State)
    → IsEvent e
    → read_events s (suc rounds) (event_bytes e ++ rest) st
      ≡ proceed (handle s st e) (read_events s rounds rest)
unfolding read_events
next-event s rounds e rest st h =
    ap (λ buf. proceed (handle s st (event_at (event_bytes e ++ rest))) (read_events s rounds buf))
      (drop-bytes e rest h)
    ∙ ap (λ v. proceed (handle s st v) (read_events s rounds rest)) (event_at-bytes e rest h)

proceed_cong :
    (r : Result) (f g : State → Result) → ((st : State) → f st ≡ g st) → proceed r f ≡ proceed r g
proceed_cong r f g h = outcomes r.outcome
  where
    outcomes :
        (o : Outcome) → proceed (record r { outcome = o }) f ≡ proceed (record r { outcome = o }) g
    outcomes (running st) = ap (print r.lines) (h st)
    outcomes (returned n) = refl
    outcomes overflown = refl

read_events-buffer :
    (s : System) (rounds : ℕ) (events : List Event) (st : State)
    → All IsEvent events
    → length events ≤ rounds
    → read_events s rounds (buffer events) st ≡ handle_events s events st
unfolding buffer handle_events read_events
read_events-buffer s rounds [] st h enough = refl
read_events-buffer s zero (e ∷ events) st h enough = absurd (omega (arith, enough))
read_events-buffer s (suc rounds) (e ∷ events) st h enough =
    next-event s rounds e (buffer events) st h.0
    ∙ proceed_cong (handle s st e) (read_events s rounds (buffer events)) (handle_events s events)
        (λ u. read_events-buffer s rounds events u h.1 (omega (arith, enough)))

length-buffer : (events : List Event) → length events ≤ length (buffer events)
unfolding buffer
length-buffer [] = omega arith
length-buffer (e ∷ events) =
    omega (arith, length-append (event_bytes e) (buffer events), length-buffer events)

print-proceed :
    (l : List Line) (r : Result) (g : State → Result)
    → proceed (print l r) g ≡ print l (proceed r g)
print-proceed l r g = outcomes r.outcome
  where
    outcomes :
        (o : Outcome)
        → proceed (print l (record r { outcome = o })) g
          ≡ print l (proceed (record r { outcome = o }) g)
    outcomes (running st) =
        ap (λ ls. record { lines = ls; outcome = (g st).outcome })
          (append_assoc l r.lines (g st).lines)
    outcomes (returned n) = refl
    outcomes overflown = refl

proceed_assoc :
    (r : Result) (f g : State → Result)
    → proceed (proceed r f) g ≡ proceed r (λ st. proceed (f st) g)
proceed_assoc r f g = outcomes r.outcome
  where
    outcomes :
        (o : Outcome)
        → proceed (proceed (record r { outcome = o }) f) g
          ≡ proceed (record r { outcome = o }) (λ st. proceed (f st) g)
    outcomes (running st) = print-proceed r.lines (f st) g
    outcomes (returned n) = refl
    outcomes overflown = refl

handle_events-append :
    (s : System) (xs ys : List Event) (st : State)
    → handle_events s (xs ++ ys) st ≡ proceed (handle_events s xs st) (handle_events s ys)
unfolding handle_events
handle_events-append s [] ys st = refl
handle_events-append s (x ∷ xs) ys st =
    proceed_cong (handle s st x) (handle_events s (xs ++ ys))
      (λ u. proceed (handle_events s xs u) (handle_events s ys)) (handle_events-append s xs ys)
    ∙ sym (proceed_assoc (handle s st x) (handle_events s xs) (handle_events s ys))

-- However the kernel spreads its events over the reads: the watcher takes every event as it was
-- written, handles all of them one after the other, and stops only where the handling of one does.
pub watch_reads-events :
    (s : System) (reads : List (List Event)) (st : State)
    → All (All IsEvent) reads
    → watch_reads s (map buffer reads) st ≡ handle_events s (concat reads) st
unfolding watch_reads concat handle_events
watch_reads-events s [] st h = refl
watch_reads-events s (events ∷ reads) st h =
    ap (λ r. proceed r (watch_reads s (map buffer reads)))
      (read_events-buffer s (length (buffer events)) events st h.0 (length-buffer events))
    ∙ proceed_cong (handle_events s events st) (watch_reads s (map buffer reads))
        (handle_events s (concat reads)) (λ u. watch_reads-events s reads u h.1)
    ∙ sym (handle_events-append s events (concat reads) st)
