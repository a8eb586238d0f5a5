-- ===== src/Heap.antt =====
-- studio10: the monitored programs example.c, memory_events.c, q3.c and monitored.c, as the calls that
-- they make to the allocator. What the allocator returns is an argument.
pub mod Blocks
mod Tests
use cse522s.Base.{
  ℕ, zero, suc, ◌+◌, ◌-◌, ◌*◌, ◌^◌, Bool, true, false, Option, none, some, List, [], ◌∷◌, ◌==◌,
  if◌then◌else◌, u32, ℤ, pos, negsuc,
}

-- A pointer is an address, or `none` for NULL; `malloc` and `realloc` keep what they returned.
pub data Call : Type 0 where
  mallopt : (action : ℤ) → Call
  malloc : (size : ℕ) (p : Option ℕ) → Call
  free : (p : Option ℕ) → Call
  realloc : (p : Option ℕ) (size : ℕ) (q : Option ℕ) → Call
  strcpy : (p : Option ℕ) (count : ℕ) → Call  -- the bytes written, with the zero at the end

-- The exit status, and the calls.
abbrev pub Run : Type 0
Run = ℕ × List Call

-- `mallopt(M_CHECK_ACTION, atoi(argv[1])) != 1`, where there is an argument.
abbrev pub with_action : Option ℤ → (answer : ℤ) → Run → Run
with_action none answer rest = rest
with_action (some action) (pos (suc zero)) rest = (rest.0, mallopt action ∷ rest.1)
with_action (some action) answer rest = (1, mallopt action ∷ [])

-- example.c
unfoldable pub example_main : (argument : Option ℤ) (answer : ℤ) (p : Option ℕ) → Run
example_main argument answer none = with_action argument answer (1, malloc 1000 none ∷ [])
example_main argument answer (some p) =
    with_action argument answer (0, malloc 1000 (some p) ∷ free (some p) ∷ free (some p) ∷ [])

-- `int` to `unsigned int`
abbrev pub to_unsigned : ℤ → ℕ
to_unsigned (pos n) = u32 n
to_unsigned (negsuc n) = u32 (n * (2 ^ 32 - 1) + (2 ^ 32 - 1))

-- memory_events.c: `none` is a wrong number of arguments.
unfoldable pub memory_events_main : (argument : Option ℤ) (p : Option ℕ) → Run
memory_events_main none p = (255, [])
memory_events_main (some size) p =
    (0, malloc (u32 (to_unsigned size * 1024)) p ∷ free p ∷ free p ∷ [])

-- q3.c: `wild` is what the uninitialised pointer holds, and `p`, `q`, `r` are what the calls return.
unfoldable pub q3_main : (argument : Option ℤ) (answer : ℤ) (wild p q r : Option ℕ) → Run
q3_main argument answer wild p q r = with_action argument answer (
  0,
  malloc 1024 p
      ∷ free p
      ∷ free p
      ∷ free wild
      ∷ realloc wild 1024 q
      ∷ strcpy p 36
      ∷ malloc 16 r
      ∷ strcpy r 51
      ∷ [],
)

-- monitored.c, whose loop never ends: its calls for what `malloc` returns.
unfoldable pub monitored_calls : List (Option ℕ) → List Call
monitored_calls [] = []
monitored_calls (p ∷ ps) = malloc 1 p ∷ monitored_calls ps
