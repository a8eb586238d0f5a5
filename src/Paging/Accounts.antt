-- ===== src/Paging/Accounts.antt =====
-- Each call keeps the invariant; what follows of every sequence of calls.
use cse522s.Base.{
  ℕ, suc, ◌+◌, ◌-◌, ◌^◌, ◌≤◌, ◌<◌, ◌≡◌, ◌≢◌, refl, inl, inr, ap, true, false, Option, none, some,
  List, [], ◌∷◌, length, arith, ltb, ◌==◌, u32, ℤ, Bool-cases, Option-cases,
}
use mathlib.Core.Path.{subst}
use cse522s.Paging.{
  PrivateData, State, Vma, update, is_minus_one, do_fault, paging_vma_open, free_cells,
  list_del_writes, release, paging_vma_close, paging_mmap,
}
use cse522s.Paging.Counts.{
  size, total, total-update, set_vmas, loses, Live, Inv, Live-update, Live-keep, fresh-update,
}

-- The call went well, and `P` holds of what it left.
abbrev pub Ok : {A : Type 0} → (A → Type 0) → Option A → Type 0
Ok P none = 1 ≤ 0
Ok P (some a) = P a

pub Ok-some : {A : Type 0} (P : A → Type 0) (o : Option A) → Ok P o → o ≢ none
Ok-some P none h e = absurd (omega (arith, h))
Ok-some P (some a) h e = absurd (ground (arith, e))

-- What the loop over the cells changes.
free_cells_lem :
    (l : List ℕ) (s : State)
    → ((free_cells l s).private_data ≡ s.private_data)
      × (((free_cells l s).next ≡ s.next)
          × (((free_cells l s).alloc_number ≡ s.alloc_number)
              × (((free_cells l s).held ≡ s.held - length l)
                  × ((x : ℕ)
                      → u32 ((free_cells l s).free_number + x)
                        ≡ u32 (s.free_number + length l + x)))))
free_cells_lem [] s = (refl, (refl, (refl, (omega arith, λ x. omega arith))))
free_cells_lem (page ∷ l) s =
    let (f, (n, (a, (h, c)))) = free_cells_lem l (record s {
      free_number = u32 (s.free_number + 1);
      held = s.held - 1;
      stale_reads = suc s.stale_reads;
    }) in
    (f, (n, (a, (omega (arith, h), λ x. omega (arith, c x)))))

pub free_cells_stale :
    (l : List ℕ) (s : State)
    → ((free_cells l s).stale_reads ≡ s.stale_reads + length l)
      × ((free_cells l s).stale_writes ≡ s.stale_writes)
free_cells_stale [] s = (omega arith, refl)
free_cells_stale (page ∷ l) s =
    let (reads, writes) = free_cells_stale l (record s {
      free_number = u32 (s.free_number + 1);
      held = s.held - 1;
      stale_reads = suc s.stale_reads;
    }) in
    (omega (arith, reads), writes)

module _ (s : State) (v : ℕ → ℕ) (lost : ℕ) (inv : Inv s v lost) where
  -- Private data that a VMA points to is there, and has been counted.
  pub present : (id : ℕ) → 0 < v id → s.private_data id ≢ none
  present id used gone = ground (arith, subst (λ o. Live o (v id)) gone (inv.live id))

  numbered : (id : ℕ) (p : PrivateData) → s.private_data id ≡ some p → id < s.next
  numbered id p e = elim (Bool-cases (ltb id s.next)) [
    | inl below ↦ ground (arith, below)
    | inr above ↦ absurd (ground (arith, above, inv.fresh id, e))
  ]

  held_of : (id : ℕ) (p : PrivateData) → s.private_data id ≡ some p → Live (some p) (v id)
  held_of id p e = subst (λ o. Live o (v id)) e (inv.live id)

  pub fault-Inv :
      (id : ℕ) (page : Option ℕ) (remap : ℤ)
      → 0 < v id
      → Inv (do_fault id page remap true s).1 v (lost + loses (do_fault id page remap true s).0)
  unfolding do_fault
  fault-Inv id none remap used = record {
    live = inv.live;
    fresh = inv.fresh;
    count = inv.count;
    pages = omega (arith, inv.pages);
  }
  fault-Inv id (some page) remap used = elim (Bool-cases (is_minus_one remap)) [
    | inl refused ↦ rw refused (record {
      live = inv.live;
      fresh = inv.fresh;
      count = inv.count;
      pages = omega (arith, inv.pages);
    })
    | inr fine ↦ elim (Option-cases (s.private_data id)) [
      | inl gone ↦ absurd (present id used gone)
      | inr (p, e) ↦
          let lt = numbered id p e in
          let q : Option PrivateData = some (record p { pagelist = page ∷ p.pagelist }) in
          let sum = (total-update s.next s.private_data id q).0 lt in
          let here = ap size e in
          rw (fine, e)
            (record {
              live = Live-keep s.private_data v id q inv.live (held_of id p e);
              fresh = fresh-update s.private_data s.next id q inv.fresh lt;
              count = omega (arith, inv.count, sum, here);
              pages = omega (arith, inv.pages, sum, here);
            })
    ]
  ]

  pub open-Inv :
      (id : ℕ)
      → 0 < v id
      → v id + 1 < 2 ^ 32
      → Ok (λ t. Inv t (set_vmas v id (v id + 1)) lost) (paging_vma_open id s)
  unfolding paging_vma_open
  open-Inv id used small = elim (Option-cases (s.private_data id)) [
    | inl gone ↦ absurd (present id used gone)
    | inr (p, e) ↦
        let lt = numbered id p e in
        let q : Option PrivateData = some (record p { reference = u32 (p.reference + 1) }) in
        let sum = (total-update s.next s.private_data id q).0 lt in
        let here = ap size e in
        let was = held_of id p e in
        rw (Ok, e)
          (record {
            live =
                Live-update s.private_data v id (v id + 1) q inv.live (omega (arith, was, small));
            fresh = fresh-update s.private_data s.next id q inv.fresh lt;
            count = omega (arith, inv.count, sum, here);
            pages = omega (arith, inv.pages, sum, here);
          })
  ]

  pub close-Inv :
      (vma : Vma) (id : ℕ)
      → 0 < v id
      → Ok (λ t. Inv t (set_vmas v id (v id - 1)) lost) (paging_vma_close true vma id s)
  unfolding paging_vma_close release
  close-Inv vma id used = elim (Option-cases (s.private_data id)) [
    | inl gone ↦ absurd (present id used gone)
    | inr (p, e) ↦
        rw (Ok, e)
          (elim (Bool-cases (u32 (p.reference + (2 ^ 32 - 1)) == 0)) [
            | inl last ↦ rw last (freed id p e last)
            | inr shared ↦ rw shared (kept id p e shared)
          ])
  ]
    where
      kept :
          (id : ℕ) (p : PrivateData)
          → s.private_data id ≡ some p
          → (u32 (p.reference + (2 ^ 32 - 1)) == 0) ≡ false
          → Inv
              (record s {
                private_data =
                    update s.private_data id
                      (some (record p { reference = u32 (p.reference + (2 ^ 32 - 1)) }));
              })
              (set_vmas v id (v id - 1))
              lost
      kept id p e shared =
          let lt = numbered id p e in
          let q : Option PrivateData =
            some (record p { reference = u32 (p.reference + (2 ^ 32 - 1)) }) in
          let sum = (total-update s.next s.private_data id q).0 lt in
          let here = ap size e in
          record {
            live =
                Live-update s.private_data v id (v id - 1) q inv.live
                  (ground (arith, held_of id p e, shared));
            fresh = fresh-update s.private_data s.next id q inv.fresh lt;
            count = omega (arith, inv.count, sum, here);
            pages = omega (arith, inv.pages, sum, here);
          }

      freed :
          (id : ℕ) (p : PrivateData)
          → s.private_data id ≡ some p
          → (u32 (p.reference + (2 ^ 32 - 1)) == 0) ≡ true
          → Inv
              (record (free_cells p.pagelist s) {
                private_data = update (free_cells p.pagelist s).private_data id none;
                stale_writes = (free_cells p.pagelist s).stale_writes + list_del_writes p.pagelist;
              })
              (set_vmas v id (v id - 1))
              lost
      freed id p e last =
          let lt = numbered id p e in
          let sum = (total-update s.next s.private_data id none).0 lt in
          let here = ap size e in
          let (f, (n, (a, (h, c)))) = free_cells_lem p.pagelist s in
          record {
            live = rw f (
                Live-update s.private_data v id (v id - 1) none inv.live
                  (ground (arith, held_of id p e, last)));
            fresh = rw (f, n) (fresh-update s.private_data s.next id none inv.fresh lt);
            count =
                rw (f, n)
                  (omega (
                    arith,
                    inv.count,
                    a,
                    sum,
                    here,
                    c (total s.next (update s.private_data id none)),
                  ));
            pages = rw (f, n) (omega (arith, inv.pages, h, sum, here));
          }

  pub mmap-Inv :
      (vma : Vma) (pages : ℕ → Option ℕ) (remap : ℤ)
      → Ok (λ r. Inv r.1 (set_vmas v s.next 1) lost) (paging_mmap true vma true pages remap s)
  unfolding paging_mmap
  mmap-Inv vma pages remap =
      let q : Option PrivateData = some (record { reference = 1; pagelist = [] }) in
      let sum = (total-update s.next s.private_data s.next q).1 (omega arith) in
      record {
        live = Live-update s.private_data v s.next 1 q inv.live (omega arith);
        fresh = λ k le. ground (arith, inv.fresh k, le);
        count = ground (arith, inv.count, sum);
        pages = ground (arith, inv.pages, sum);
      }
