-- ===== src/Observer/Tests.antt =====
-- Process 2 of three ends; then process 4 is created by process 3.
use cse522s.Base.{
  ℕ, false, Option, none, some, ◌≡◌, ◌≢◌, ◌↔◌, ◌<◌, refl, true, [], ◌∷◌, get_or, pos,
}
use cse522s.Observer.{Listing, Line, created, deleted, is_created, changes}
use cse522s.Observer.Changes.{is_created_iff, changes-same}
use cse522s.Observer.Program.{System, State, compare_listings, read_listing, print_chain}
use cse522s.Observer.Anomalous.{random, in_child, in_parent, round}
use cse522s.Observer.Reports.{reports, compare_listings-created}

abbrev earlier : Listing
earlier = record { pid = λ i. get_or (1 ∷ 2 ∷ 3 ∷ []) i 0; len = 3 }

abbrev later : Listing
later = record { pid = λ i. get_or (1 ∷ 3 ∷ []) i 0; len = 2 }

-- The last line is wrong: process 3 is still there.
reported : changes earlier later ≡ deleted 2 ∷ deleted 3 ∷ []
unfolding changes is_created cse522s.Observer.is_deleted cse522s.Observer.created_lines
    cse522s.Observer.deleted_lines cse522s.Observer.keep_flag
reported = refl

same_process :
    (is_created earlier later 1 ≡ true) ↔ ((k : ℕ) → k < earlier.len → later.pid 1 ≢ earlier.pid k)
same_process = is_created_iff earlier later 1

unchanged : changes later later ≡ []
unchanged = changes-same later

abbrev system : System
system = record { atoi = λ name. get_or name 0 0; parent = λ pid. some 3 }

abbrev with_four : Listing
with_four = record { pid = λ i. get_or (1 ∷ 3 ∷ 4 ∷ []) i 0; len = 3 }

abbrev state : State
state = record { old_list = later; first = false; original_pid = 3 }

compare_listings-created_example :
    (0 < reports 4 (compare_listings system 5 state with_four).0)
    ↔ ((i : ℕ) × (i < 3) × (with_four.pid i ≡ 4) × ((k : ℕ) → k < 2 → 4 ≢ later.pid k))
compare_listings-created_example = compare_listings-created system 5 state with_four 4

chain_to_original : print_chain system 5 3 4 ≡ 4 ∷ 3 ∷ []
unfolding print_chain
chain_to_original = refl

abbrev size : Option Listing → ℕ
size none = 0
size (some l) = l.len

-- "acpi" is no process.
two_names :
    size (
      read_listing system
        ((49 ∷ []) ∷ (97 ∷ 99 ∷ 112 ∷ 105 ∷ []) ∷ [])
        (record { pid = λ i. 0; len = 0 }))
    ≡ 1
unfolding read_listing
two_names = refl

-- With rates of 100 a parent ends in its first round, and its child does not.
parent_ends : round (random (pos 100) (pos 100)) 17 42 in_parent ≡ (true, true)
parent_ends = refl

child_goes_on : round (random (pos 100) (pos 100)) 17 42 in_child ≡ (true, false)
child_goes_on = refl
