-- ===== src/Observer/Program.antt =====
-- The rest of studio12/process_observer.c: reading the directory, the chains of parents, and the loop of
-- `main`.
use cse522s.Base.{
  ℕ, zero, suc, Bool, true, false, Option, none, some, List, [], ◌∷◌, ◌++◌, ltb, leb, ◌==◌, ◌||◌,
  if◌then◌else◌,
}
use cse522s.Observer.{Listing, Line, created, is_created, deleted_lines}

-- What the program asks of its surroundings: `atoi`, and the parent in the status file of a process, if
-- the file can be opened.
pub record System : Type 0 where
  pub atoi : List ℕ → ℕ
  pub parent : ℕ → Option ℕ

-- What one round prints: a line, or a chain of parents.
pub data Output : Type 0 where
  line : Line → Output
  chain : List ℕ → Output

abbrev pub starts_with_digit : List ℕ → Bool
starts_with_digit [] = false
starts_with_digit (c ∷ name) = if ltb c 48 || ltb 57 c then false else true

-- LIST_LEN
abbrev pub list_len : ℕ
list_len = 1_024

pub record State : Type 0 where
  pub old_list : Listing
  pub first : Bool
  pub original_pid : ℕ

-- How `main` ends: at a directory that cannot be opened, or by a write behind an array. `watching` is that
-- the readings given are over.
pub data Outcome : Type 0 where
  watching : State → Outcome
  open_failed : Outcome
  overflown : Outcome

abbrev pub lines : List Line → List Output
lines [] = []
lines (l ∷ ls) = line l ∷ lines ls

module _ (s : System) where
  -- `printChain`, for so many levels: the ids that it prints. A chain that does not end by then goes on.
  unfoldable pub print_chain : (levels original_pid pid : ℕ) → List ℕ
  print_chain zero original_pid pid = []
  print_chain (suc levels) original_pid pid =
      if pid == original_pid
      then pid ∷ []
      else pid
        ∷ (elim (s.parent pid) [ none ↦ [] | some ppid ↦ print_chain levels original_pid ppid ])

  -- The `readdir` loop, with `i` entries so far: `none` is a write behind the array. A directory with no
  -- process leaves the length unset, which /proc never is.
  unfoldable pub read_listing : (names : List (List ℕ)) → Listing → Option Listing
  read_listing [] l = some l
  read_listing (name ∷ names) l =
      let skipped = read_listing names l in
      let rest =
        read_listing names
          (record { pid = λ k. if k == l.len then s.atoi name else l.pid k; len = suc l.len }) in
      if starts_with_digit name then if leb list_len l.len then none else rest else skipped

  -- The loop over the new listing, for the rounds left: its output, `first` and `original_pid`.
  unfoldable pub report_created :
      (levels : ℕ) (old_list new_list : Listing) (rounds j : ℕ)
      → (first : Bool) (original_pid : ℕ) → List Output × (Bool × ℕ)
  report_created levels old_list new_list zero j first original_pid = ([], (first, original_pid))
  report_created levels old_list new_list (suc rounds) j first original_pid =
      let original = if first then new_list.pid j else original_pid in
      let skipped = report_created levels old_list new_list rounds (suc j) first original_pid in
      let rest = report_created levels old_list new_list rounds (suc j) false original in
      if is_created old_list new_list j
      then (
        line (created (new_list.pid j))
            ∷ chain (print_chain levels original (new_list.pid j))
            ∷ rest.0,
        rest.1,
      )
      else skipped

  -- One round, when the new listing has been read.
  unfoldable pub compare_listings :
      (levels : ℕ) → State → (new_list : Listing) → List Output × State
  compare_listings levels st new_list =
      let r = report_created levels st.old_list new_list new_list.len 0 st.first st.original_pid in
      (
        r.0 ++ lines (deleted_lines st.old_list new_list st.old_list.len 0),
        record { old_list = new_list; first = r.1.0; original_pid = r.1.1 },
      )

  -- `while (1)`: each round has the directory's names, if it can be opened, and what stands in the new
  -- array before.
  unfoldable pub observe :
      (levels : ℕ) → List (Option (List (List ℕ)) × (ℕ → ℕ)) → State → List Output × Outcome
  observe levels [] st = ([], watching st)
  observe levels ((none, memory) ∷ rounds) st = ([], open_failed)
  observe levels ((some names, memory) ∷ rounds) st =
      elim (read_listing names (record { pid = memory; len = 0 })) [
        | none ↦ ([], overflown)
        | some new_list ↦
            let r = compare_listings levels st new_list in
            let rest = observe levels rounds r.1 in (r.0 ++ rest.0, rest.1)
      ]

  -- `main`, with the names of its first reading; the process that is `original` at first has number 0.
  unfoldable pub observer_main :
      (levels : ℕ)
      → (names : Option (List (List ℕ))) (memory : ℕ → ℕ) → List (Option (List (List ℕ)) × (ℕ → ℕ))
      → List Output × Outcome
  observer_main levels none memory rounds = ([], open_failed)
  observer_main levels (some names) memory rounds =
      elim (read_listing names (record { pid = memory; len = 0 })) [
        | none ↦ ([], overflown)
        | some old_list ↦
            observe levels rounds (record { old_list = old_list; first = true; original_pid = 0 })
      ]
