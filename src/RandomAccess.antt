-- ===== src/RandomAccess.antt =====
-- studio15/random_access.c: the updates of the table by a shift register, and the register started
-- at a later step.
pub mod Twice
pub mod Register
pub mod Digits
pub mod Jump
mod Tests
use Prim.Native.Nat.{bit_and, bit_xor}
use cse522s.Base.{
  ℕ, zero, suc, ◌+◌, ◌-◌, ◌*◌, ◌/◌, ◌%◌, ◌^◌, ◌==◌, Bool, true, false, List, [], ◌∷◌, Option, none,
  some, if◌then◌else◌, leb, ltb, get_or, ℤ, pos, negsuc,
}

-- `ran << 1 ^ (ran < 0 ? POLY : 0)`, where `ran` is a 64-bit pattern read as signed
pub advance : ℕ → ℕ
advance ran = bit_xor (ran * 2 % 2 ^ 64) (if leb (2 ^ 63) ran then 7 else 0)

-- `ran & (tbl_entries - 1)`, as the pattern of an `int`. It is an index while it is below 2 ^ 31, so for
-- tables of at most 2 ^ 31 entries.
abbrev pub offset : (tbl_entries ran : ℕ) → ℕ
offset tbl_entries ran = bit_and ran (tbl_entries - 1) % 2 ^ 32

abbrev pub Table : Type 0
Table = ℕ → ℕ

abbrev pub update : Table → ℕ → ℕ → Table
update table i v k = if k == i then v else table k

-- The loop, for the rounds that are left: the table and `ran`.
pub updates : (rounds tbl_entries : ℕ) → Table → ℕ → Table × ℕ
updates zero tbl_entries table ran = (table, ran)
updates (suc rounds) tbl_entries table ran =
    let o = offset tbl_entries ran in
    updates rounds tbl_entries (update table o (bit_xor (table o) ran)) (advance ran)

-- `iteration`: the table, and the result in `uint8_t`. The product is in `unsigned long`.
pub iteration : (long_bits : ℕ) → Table → (tbl_entries ran : ℕ) → Table × ℕ
iteration long_bits table tbl_entries ran =
    let done = updates (tbl_entries * 4 % 2 ^ long_bits) tbl_entries table ran in
    (done.0, done.1 % 256)

-- `__run_kernel`: each iteration starts from the same `ran`.
pub run_iterations : (long_bits iterations : ℕ) → Table → (tbl_entries ran : ℕ) → Table
run_iterations long_bits zero table tbl_entries ran = table
run_iterations long_bits (suc n) table tbl_entries ran =
    run_iterations long_bits n (iteration long_bits table tbl_entries ran).0 tbl_entries ran

-- `PERIOD`
abbrev pub period : ℕ
period = 1_317_624_576_693_539_401

-- `while (n < 0) n += PERIOD`, for -(k + 1); eight rounds are enough for an `int64_t`.
unfoldable pub make_positive : (rounds k : ℕ) → ℕ
make_positive zero k = 0
make_positive (suc rounds) k =
    let rest = make_positive rounds (k - period) in if ltb k period then period - 1 - k else rest

-- `while (n > PERIOD) n -= PERIOD`; the same.
unfoldable pub make_small : (rounds n : ℕ) → ℕ
make_small zero n = n
make_small (suc rounds) n =
    let rest = make_small rounds (n - period) in if ltb period n then rest else n

-- `m2`, from one entry on: `temp` advances twice per entry.
unfoldable pub m2_from : (rounds temp : ℕ) → List ℕ
m2_from zero temp = []
m2_from (suc rounds) temp = temp ∷ m2_from rounds (advance (advance temp))

unfoldable pub m2 : List ℕ
m2 = m2_from 64 1

-- The loop over `j`: `temp ^= m2[j]` for the digits of `ran`.
unfoldable pub combine : (rounds j ran : ℕ) → List ℕ → (temp : ℕ) → ℕ
combine zero j ran m temp = temp
combine (suc rounds) j ran m temp =
    combine rounds (suc j) ran m
      (if ran / 2 ^ j % 2 == 1 then bit_xor temp (get_or m j 0) else temp)

-- The index of the highest digit 1 among the lowest; at 0 and at -1 the next loop has no round.
unfoldable pub top_bit : (digits n : ℕ) → ℕ
top_bit zero n = 0
top_bit (suc i) n = let lower = top_bit i n in if n / 2 ^ i % 2 == 1 then i else lower

-- `while (i > 0)`
unfoldable pub climb : (i n ran : ℕ) → ℕ
climb zero n ran = ran
climb (suc i) n ran =
    let doubled = combine 64 0 ran m2 0 in
    climb i n (if n / 2 ^ i % 2 == 1 then advance doubled else doubled)

-- From here on `n` is between 0 and `PERIOD`.
unfoldable pub start_at : (n : ℕ) → ℕ
start_at n = if n == 0 then 1 else climb (top_bit 63 n) n 2

unfoldable pub hpcc_starts : (n : ℤ) → ℕ
hpcc_starts (pos n) = start_at (make_small 8 n)
hpcc_starts (negsuc k) = start_at (make_small 8 (make_positive 8 k))

-- `run_kernel`: what `malloc` returns, and the table at the end; `none` is -1.
pub run_kernel :
    (long_bits : ℕ) → (table : Option Table) (tbl_entries iterations : ℕ) → Option Table
run_kernel long_bits none tbl_entries iterations = none
run_kernel long_bits (some table) tbl_entries iterations =
    some (run_iterations long_bits iterations table tbl_entries (hpcc_starts (pos 0)))

pub data Outcome : Type 0 where
  usage : Outcome
  finished : (table : Option Table) → Outcome

-- `main`, from the arguments after the program's name; `t_size` is what `atof` and the conversion to
-- `unsigned long` make of the argument, `malloc` the memory for so many entries.
unfoldable pub random_access_main :
    (long_bits : ℕ) → (t_size : List ℕ → ℕ) (malloc : ℕ → Option Table) → List (List ℕ) → Outcome
random_access_main long_bits t_size malloc (arg ∷ []) =
    let t_entries = t_size arg / 8 in
    if bit_and t_entries (t_entries - 1) == 0
    then finished (run_kernel long_bits (malloc t_entries) t_entries 4)
    else usage
random_access_main long_bits t_size malloc _ = usage
