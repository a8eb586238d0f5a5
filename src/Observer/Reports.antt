-- ===== src/Observer/Reports.antt =====
-- Which processes a round of the observer reports as created.
use mathlib.Core.Bool.{true≢false}
use native.Mathlib.Decide.{ℕ_discrete}
use cse522s.Base.{
  ℕ, zero, suc, ◌+◌, ◌≤◌, ◌<◌, ◌≡◌, ◌≢◌, ◌↔◌, refl, ◌∙◌, sym, ap, Bool, true, false, Bool-cases,
  inl, inr, List, [], ◌∷◌, ◌++◌, ◌==◌, if◌then◌else◌, arith,
}
use cse522s.Observer.{Listing, created, deleted, is_created, deleted_lines}
use cse522s.Observer.Changes.{is_created_iff}
use cse522s.Observer.Program.{
  System, Output, line, chain, lines, report_created, State, compare_listings,
}

-- How often a process is reported as created.
unfoldable pub reports : ℕ → List Output → ℕ
reports p [] = 0
reports p (line (created q) ∷ out) = (if q == p then 1 else 0) + reports p out
reports p (_ ∷ out) = reports p out

reports-append : (p : ℕ) (xs ys : List Output) → reports p (xs ++ ys) ≡ reports p xs + reports p ys
unfolding reports
reports-append p [] ys = omega arith
reports-append p (line (created q) ∷ xs) ys = omega (arith, reports-append p xs ys)
reports-append p (line (deleted q) ∷ xs) ys = reports-append p xs ys
reports-append p (chain l ∷ xs) ys = reports-append p xs ys

-- The lines of the second loop report no process as created.
reports-deleted :
    (old_list new_list : Listing) (p rounds j : ℕ)
    → reports p (lines (deleted_lines old_list new_list rounds j)) ≡ 0
unfolding reports deleted_lines
reports-deleted old_list new_list p zero j = refl
reports-deleted old_list new_list p (suc rounds) j =
    ground (arith, reports-deleted old_list new_list p rounds (suc j))

module _ (s : System) (levels : ℕ) (old_list new_list : Listing) (p : ℕ) where
  abbrev original_of : (first : Bool) (original j : ℕ) → ℕ
  original_of first original j = if first then new_list.pid j else original

  report_one :
      (rounds j : ℕ) (first : Bool) (original : ℕ)
      → is_created old_list new_list j ≡ true
      → reports p (report_created s levels old_list new_list (suc rounds) j first original).0
        ≡ (if new_list.pid j == p then 1 else 0)
          + reports p
              (report_created s levels old_list new_list rounds
                (suc j)
                false
                (original_of first original j)).0
  unfolding reports report_created
  report_one rounds j first original here = rw here refl

  report_none :
      (rounds j : ℕ) (first : Bool) (original : ℕ)
      → is_created old_list new_list j ≡ false
      → reports p (report_created s levels old_list new_list (suc rounds) j first original).0
        ≡ reports p (report_created s levels old_list new_list rounds (suc j) first original).0
  unfolding report_created
  report_none rounds j first original absent = rw absent refl

  -- A place in the new listing, from `j` on, of a process that counts as created.
  abbrev Created : (rounds j : ℕ) → Type 0
  Created rounds j =
      (i : ℕ) × (j ≤ i)
      × (i < j + rounds)
      × (new_list.pid i ≡ p)
      × (is_created old_list new_list i ≡ true)

  later : (rounds j : ℕ) → Created rounds (suc j) → Created (suc rounds) j
  later rounds j (i, low, high, e, c) = (i, omega (arith, low), omega (arith, high), e, c)

  report_sound :
      (rounds j : ℕ) (first : Bool) (original : ℕ)
      → 0 < reports p (report_created s levels old_list new_list rounds j first original).0
      → Created rounds j
  unfolding reports report_created
  report_sound zero j first original h = absurd (omega (arith, h))
  report_sound (suc rounds) j first original h =
      elim (Bool-cases (is_created old_list new_list j)) [
        | inl here ↦ elim (ℕ_discrete (new_list.pid j) p) [
          | yes e ↦ (j, omega arith, omega arith, e, here)
          | no ne ↦ later rounds j (
              report_sound rounds (suc j) false (original_of first original j)
                (ground (arith, h, report_one rounds j first original here, ne)))
        ]
        | inr absent ↦ later rounds j (
            report_sound rounds (suc j) first original
              (omega (arith, h, report_none rounds j first original absent)))
      ]

  report_complete :
      (rounds j : ℕ) (first : Bool) (original : ℕ)
      → Created rounds j
      → 0 < reports p (report_created s levels old_list new_list rounds j first original).0
  report_complete zero j first original (i, low, high, e, c) = absurd (omega (arith, low, high))
  report_complete (suc rounds) j first original (i, low, high, e, c) =
      elim (Bool-cases (is_created old_list new_list j)) [
        | inl here ↦ elim (ℕ_discrete i j) [
          | yes same ↦
              ground (arith, report_one rounds j first original here, e, ap new_list.pid same)
          | no ne ↦ omega (
            arith,
            report_one rounds j first original here,
            report_complete rounds (suc j) false (original_of first original j)
                (i, ground (arith, low, ne), omega (arith, high), e, c),
          )
        ]
        | inr absent ↦ omega (
          arith,
          report_none rounds j first original absent,
          report_complete rounds (suc j) first original
              (i, further i low c absent, omega (arith, high), e, c),
        )
      ]
    where
      further :
          (i : ℕ)
          → j ≤ i
          → is_created old_list new_list i ≡ true
          → is_created old_list new_list j ≡ false
          → suc j ≤ i
      further i low c absent = elim (ℕ_discrete i j) [
        | yes same ↦ absurd (true≢false (sym c ∙ ap (is_created old_list new_list) same ∙ absent))
        | no ne ↦ ground (arith, low, ne)
      ]

-- A round of the observer reports a process as created exactly when it stands in the new listing and
-- differs from every process of the old one, whatever is deleted and however the chains go.
pub compare_listings-created :
    (s : System) (levels : ℕ) (st : State) (new_list : Listing) (p : ℕ)
    → (0 < reports p (compare_listings s levels st new_list).0) ↔ (
        (i : ℕ) × (i < new_list.len)
        × (new_list.pid i ≡ p)
        × ((k : ℕ) → k < st.old_list.len → p ≢ st.old_list.pid k))
unfolding compare_listings
compare_listings-created s levels st new_list p =
    let created_part =
      (report_created s levels st.old_list new_list new_list.len 0 st.first st.original_pid).0 in
    let only : reports p (compare_listings s levels st new_list).0 ≡ reports p created_part =
      omega (
        arith,
        reports-append p created_part
            (lines (deleted_lines st.old_list new_list st.old_list.len 0)),
        reports-deleted st.old_list new_list p st.old_list.len 0,
      ) in
    let iff = is_created_iff st.old_list new_list in
    (
      λ h.
          let (i, low, high, e, c) =
            report_sound s levels st.old_list new_list p new_list.len 0 st.first st.original_pid
              (omega (arith, h, only)) in
          (i, omega (arith, high), e, λ k lt same. (iff i).0 c k lt (e ∙ same)),
      λ (i, lt, e, ne). omega (
        arith,
        only,
        report_complete s levels st.old_list new_list p new_list.len 0 st.first st.original_pid
            (i, omega arith, omega (arith, lt), e, (iff i).1 (λ k le same. ne k le (sym e ∙ same))),
      ),
    )
