-- ===== src/Inotify.antt =====
-- studio11/inotify.c: a watcher that reads events from a buffer and watches what is created. The bits
-- of the events, and `inotify_add_watch`, are parameters; the words of an event are little-endian.
pub mod Events
mod Tests
use Prim.Native.Nat.{bit_and}
use cse522s.Base.{
  ℕ, zero, suc, ◌+◌, ◌*◌, ◌^◌, ◌||◌, Bool, true, false, List, [], ◌∷◌, ◌++◌, length, take, drop,
  get_or, ltb, leb, ◌==◌, if◌then◌else◌, ℤ, pos, negsuc,
}
use cse522s.TcpServer.{c_string}

-- The events that have a line of their own, in the order of the program.
pub data Flag : Type 0 where
  in_access : Flag
  in_modify : Flag
  in_attrib : Flag
  in_close_write : Flag
  in_close_nowrite : Flag
  in_open : Flag
  in_moved_from : Flag
  in_moved_to : Flag
  in_delete : Flag
  in_delete_self : Flag
  in_move_self : Flag
  in_create : Flag

abbrev pub silent_flags : List Flag
silent_flags =
    in_access ∷ in_modify ∷ in_attrib ∷ in_close_write ∷ in_close_nowrite ∷ in_open ∷ in_moved_from
    ∷ in_moved_to ∷ in_delete ∷ in_delete_self ∷ in_move_self ∷ []

-- What the program uses of the system.
pub record System : Type 0 where
  pub bit : Flag → ℕ
  pub isdir_bit : ℕ
  pub add_watch : (call : ℕ) (path : List ℕ) → ℤ  -- the answer to the call of that number

-- `struct inotify_event`; `name` has `len` bytes, and the numbers are 32-bit patterns.
pub record Event : Type 0 where
  pub wd : ℕ
  pub mask : ℕ
  pub cookie : ℕ
  pub name : List ℕ

pub data Line : Type 0 where
  event_line : (wd mask cookie len : ℕ) (dir : Bool) → Line
  name_line : List ℕ → Line
  flag_line : Flag → Line
  full_line : Line
  add_failed_line : List ℕ → Line
  watch_line : ℕ → List ℕ → Line

-- The paths by watch, and how often `inotify_add_watch` was called.
pub record State : Type 0 where
  pub wds : ℕ → List ℕ
  pub calls : ℕ

pub data Outcome : Type 0 where
  running : State → Outcome
  returned : ℤ → Outcome
  overflown : Outcome  -- an access behind `wds` or `path`

pub record Result : Type 0 where
  pub lines : List Line
  pub outcome : Outcome

-- Lines in front of what comes later.
abbrev pub print : List Line → Result → Result
print lines r = record { lines = lines ++ r.lines; outcome = r.outcome }

abbrev pub has : (mask bit : ℕ) → Bool
has mask bit = if bit_and mask bit == 0 then false else true

-- The table after `wds[wd].path` is set.
abbrev pub watch : State → (wd : ℕ) → (path : List ℕ) → State
watch st wd path = record { wds = λ k. if k == wd then path else st.wds k; calls = suc st.calls }

-- What follows the answer of `inotify_add_watch`.
unfoldable pub added : State → (path : List ℕ) → ℤ → Result
added st path (pos wd) =
    if ltb 256 wd
    then record { lines = full_line ∷ []; outcome = returned (pos 0) }
    else if wd == 256
    then record { lines = watch_line wd path ∷ []; outcome = overflown }
    else record { lines = watch_line wd path ∷ []; outcome = running (watch st wd path) }
added st path (negsuc zero) = record {
  lines = add_failed_line path ∷ [];
  outcome = returned (negsuc 0);
}
added st path (negsuc (suc n)) = record { lines = []; outcome = overflown }

-- Four bytes as a number.
abbrev pub word : List ℕ → ℕ
word buf = get_or buf 0 0 + 256 * (get_or buf 1 0 + 256 * (get_or buf 2 0 + 256 * get_or buf 3 0))

-- The event that starts a buffer.
abbrev pub event_at : List ℕ → Event
event_at buf = record {
  wd = word buf;
  mask = word (drop 4 buf);
  cookie = word (drop 8 buf);
  name = take (word (drop 12 buf)) (drop 16 buf);
}

-- After an event the loop goes on, unless it has ended the program.
abbrev pub proceed : Result → (State → Result) → Result
proceed r next = elim r.outcome [ running st ↦ print r.lines (next st) | _ ↦ r ]

module _ (s : System) where
  unfoldable pub flag_lines : List Flag → (mask : ℕ) → List Line
  flag_lines [] mask = []
  flag_lines (f ∷ flags) mask =
      let rest = flag_lines flags mask in if has mask (s.bit f) then flag_line f ∷ rest else rest

  -- The branch of IN_CREATE: the path of the directory, "/" and the name.
  unfoldable pub create : State → Event → Result
  create st e =
      let path = st.wds e.wd ++ 47 ∷ c_string e.name in
      if leb 256 e.wd || leb 256 (length path)
      then record { lines = []; outcome = overflown }
      else added st path (s.add_watch st.calls path)

  -- The body of the loop, for one event.
  unfoldable pub handle : State → Event → Result
  handle st e =
      print
        (event_line e.wd e.mask e.cookie (length e.name) (has e.mask s.isdir_bit)
          ∷ ((if length e.name == 0 then [] else name_line (c_string e.name) ∷ [])
              ++ flag_lines silent_flags e.mask))
        (if has e.mask (s.bit in_create)
          then print (flag_line in_create ∷ []) (create st e)
          else record { lines = []; outcome = running st })

  -- The loop over what one `read` gave, from position `i` on; an event has at least 16 bytes, so that the
  -- number of bytes is enough for `rounds`.
  unfoldable pub read_events : (rounds : ℕ) → (buf : List ℕ) → State → Result
  read_events rounds [] st = record { lines = []; outcome = running st }
  read_events zero (b ∷ buf) st = record { lines = []; outcome = running st }
  read_events (suc rounds) (b ∷ buf) st =
      proceed (handle st (event_at (b ∷ buf)))
        (read_events rounds (drop (16 + word (drop 12 (b ∷ buf))) (b ∷ buf)))

  -- `while (1)`: the bytes of each `read`, none when it fails.
  unfoldable pub watch_reads : List (List ℕ) → State → Result
  watch_reads [] st = record { lines = []; outcome = running st }
  watch_reads (buf ∷ bufs) st = proceed (read_events (length buf) buf st) (watch_reads bufs)

  abbrev pub started : (memory : ℕ → List ℕ) → (arg : List ℕ) → ℤ → List (List ℕ) → Result
  started memory arg (negsuc n) bufs = record { lines = []; outcome = returned (negsuc 0) }
  started memory arg (pos wd) bufs = print (watch_line wd arg ∷ []) (
      if leb 256 wd || leb 1024 (length arg)
      then record { lines = []; outcome = overflown }
      else watch_reads bufs (watch (record { wds = memory; calls = 0 }) wd arg))

  -- `main`, from the arguments after the program's name. `memory` is what stands in `wds`.
  unfoldable pub inotify_main :
      (memory : ℕ → List ℕ) → (initialized : Bool) → (args bufs : List (List ℕ)) → Result
  inotify_main memory true (arg ∷ []) bufs = started memory arg (s.add_watch 0 arg) bufs
  inotify_main memory _ _ bufs = record { lines = []; outcome = returned (negsuc 0) }
