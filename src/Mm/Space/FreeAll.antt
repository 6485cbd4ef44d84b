-- ===== src/Mm/Space/FreeAll.antt =====
-- `freevm` of mm/vm.c: its loops.
use jix.Base.{
  ℕ, zero, suc, ◌+◌, ◌*◌, ◌^◌, ◌≡◌, refl, ap, ◌∙◌, subst, inl, inr, Bool, true, false, Option, none,
  some, List, [], ◌∷◌, arith, ltb, ◌==◌, Bool-cases,
}
use jix.Mm.Pages.{kbase, p2v}
use jix.Mm.FreeList.{IsFree}
use jix.Mm.Vm.{Vm, present, pte_addr, table_of}
use jix.Mm.Uvm.{for_each, free_one, free_entry, free_table, freevm}
use jix.Mm.Space.Free.{All, freed, entry_pages, table_pages, space_pages, Freeing, kfree1-Freeing}

-- What a loop has done: the pages of `R` are left, and the list in the end is `total`.
abbrev LeavesPages : Vm → List ℕ → List ℕ → Option (Bool × Vm) → Type 0
LeavesPages m0 R total r =
    (m' : Vm) × (F : List ℕ) × (r ≡ some (true, m')) × Freeing m0 m' R F × (freed R F ≡ total)

free_one-Freeing :
    (m0 m : Vm) (v : ℕ) (R F : List ℕ)
    → Freeing m0 m (v ∷ R) F
    → LeavesPages m0 R (freed (v ∷ R) F) (free_one v m)
unfolding free_one
free_one-Freeing m0 m v R F h =
    let (m', e, next) = kfree1-Freeing m0 m v R F h in
    (m', v ∷ F, rw (e, free_one) refl, next, refl)

-- One loop after another.
for_each-suc :
    (m0 : Vm) (body : ℕ → Vm → Option (Bool × Vm)) (n i : ℕ) (m : Vm) (R1 R2 total : List ℕ)
    → LeavesPages m0 R1 total (body i m)
    → ((m' : Vm) (F : List ℕ)
        → Freeing m0 m' R1 F
        → LeavesPages m0 R2 (freed R1 F) (for_each body n (i + 1) m'))
    → LeavesPages m0 R2 total (for_each body (suc n) i m)
unfolding for_each
for_each-suc m0 body n i m R1 R2 total (m1, F, e, h, all) next =
    let (m2, F2, e2, h2, all2) = next m1 F h in (m2, F2, rw (e, for_each) e2, h2, all2 ∙ all)

All-entry_pages :
    (P : ℕ → Type 0) (w : ℕ → ℕ) (n j : ℕ) (R : List ℕ) → All P (entry_pages w n j R) → All P R
unfolding entry_pages
All-entry_pages P w zero j R h = h
All-entry_pages P w (suc n) j R h = elim (Bool-cases (present (w j))) [
  | inl p ↦
      let all : All P (p2v (pte_addr (w j)) ∷ entry_pages w n (j + 1) R) = rw p at h in
      All-entry_pages P w n (j + 1) R all.1
  | inr a ↦ All-entry_pages P w n (j + 1) R (rw a at h)
]

-- The inner loop.
free_entries-Freeing :
    (m0 : Vm) (tb n j : ℕ) (R F : List ℕ) (m : Vm)
    → Freeing m0 m (entry_pages (m0.word tb) n j (tb ∷ R)) F
    → LeavesPages m0
        (tb ∷ R)
        (freed (entry_pages (m0.word tb) n j (tb ∷ R)) F)
        (for_each (free_entry tb) n j m)
unfolding for_each free_entry entry_pages
free_entries-Freeing m0 tb zero j R F m h = (m, F, refl, h, refl)
free_entries-Freeing m0 tb (suc n) j R F m h =
    let rec = λ (m' : Vm) (F' : List ℕ). free_entries-Freeing m0 tb n (j + 1) R F' m' in
    let there =
      All-entry_pages (λ p. m.word p ≡ m0.word p) (m0.word tb) (suc n) j (tb ∷ R) h.kept in
    let same : m.word tb j ≡ m0.word tb j = ap (λ (f : ℕ → ℕ). f j) there.0 in
    let rest = entry_pages (m0.word tb) n (j + 1) (tb ∷ R) in
    elim (Bool-cases (present (m0.word tb j))) [
      | inl p ↦
          let v = p2v (pte_addr (m0.word tb j)) in
          let h' : Freeing m0 m (v ∷ rest) F = rw p at h in
          let one : LeavesPages m0 rest (freed (v ∷ rest) F) (free_entry tb j m) =
            rw (free_entry, same, p) (free_one-Freeing m0 m v rest F h') in
          rw p (for_each-suc m0 (free_entry tb) n j m rest (tb ∷ R) (freed (v ∷ rest) F) one rec)
      | inr a ↦
          let h' : Freeing m0 m rest F = rw a at h in
          let one : LeavesPages m0 rest (freed rest F) (free_entry tb j m) =
            rw (free_entry, same, a) (m, F, refl, h', refl) in
          rw a (for_each-suc m0 (free_entry tb) n j m rest (tb ∷ R) (freed rest F) one rec)
    ]

All-table_pages :
    (P : ℕ → Type 0) (word : ℕ → ℕ → ℕ) (d : ℕ → ℕ) (n i : ℕ) (R : List ℕ)
    → All P (table_pages word d n i R)
    → All P R
unfolding table_pages
All-table_pages P word d zero i R h = h
All-table_pages P word d (suc n) i R h =
    let rest = table_pages word d n (i + 1) R in
    let rec = All-table_pages P word d n (i + 1) R in
    elim (Bool-cases (present (d i))) [
      | inr a ↦ rec (rw a at h)
      | inl p ↦ elim (Bool-cases (ltb (i * 2 ^ 22) kbase)) [
        | inl low ↦
            let all : All P (entry_pages (word (table_of (d i))) 1024 0 (table_of (d i) ∷ rest)) =
              rw (p, low) at h in
            rec (All-entry_pages P (word (table_of (d i))) 1024 0 (table_of (d i) ∷ rest) all).1
        | inr high ↦ let all : All P (table_of (d i) ∷ rest) = rw (p, high) at h in rec all.1
      ]
    ]

module _ (m0 : Vm) (pg : ℕ) where
  abbrev rest_of : ℕ → ℕ → List ℕ
  rest_of n i = table_pages m0.word (m0.word pg) n i (pg ∷ [])

  -- The directory is as it was until it is freed.
  dir-kept :
      (n i j : ℕ) (m : Vm) (F : List ℕ) → Freeing m0 m (rest_of n i) F → m.word pg j ≡ m0.word pg j
  dir-kept n i j m F h =
      ap (λ (f : ℕ → ℕ). f j)
        (All-table_pages (λ p. m.word p ≡ m0.word p) m0.word (m0.word pg) n i (pg ∷ []) h.kept).0

  -- The table itself is freed last.
  then_table :
      (n i : ℕ) (total : List ℕ) (r : Option (Bool × Vm))
      → LeavesPages m0 (table_of (m0.word pg i) ∷ rest_of n (i + 1)) total r
      → LeavesPages m0
          (rest_of n (i + 1))
          total
          (elim r [ none ↦ none | some s ↦ free_one (table_of (s.1.word pg i)) s.1 ])
  then_table n i total r (m1, F, e, h, all) =
      let same : m1.word pg i ≡ m0.word pg i =
        ap (λ (f : ℕ → ℕ). f i)
          (All-table_pages (λ p. m1.word p ≡ m0.word p) m0.word (m0.word pg) n (i + 1) (pg ∷ [])
            h.kept.1).0 in
      let (m2, F2, e2, h2, all2) =
        free_one-Freeing m0 m1 (table_of (m0.word pg i)) (rest_of n (i + 1)) F h in
      (m2, F2, rw (e, same) e2, h2, all2 ∙ all)

  free_table-Freeing :
      (n i : ℕ) (F : List ℕ) (m : Vm)
      → Freeing m0 m (rest_of (suc n) i) F
      → LeavesPages m0 (rest_of n (i + 1)) (freed (rest_of (suc n) i) F) (free_table pg i m)
  unfolding free_table table_pages
  free_table-Freeing n i F m h =
      let same = dir-kept (suc n) i i m F h in
      let tb = table_of (m0.word pg i) in
      let rest = rest_of n (i + 1) in
      elim (Bool-cases (present (m0.word pg i))) [
        | inr a ↦
            let h' : Freeing m0 m rest F = rw a at h in
            rw (free_table, same, a) (m, F, refl, h', refl)
        | inl p ↦ elim (Bool-cases (ltb (i * 2 ^ 22) kbase)) [
          | inl low ↦
              let h' : Freeing m0 m (entry_pages (m0.word tb) 1024 0 (tb ∷ rest)) F =
                rw (p, low) at h in
              rw (free_table, same, p, low)
                (then_table n i _ _ (free_entries-Freeing m0 tb 1024 0 rest F m h'))
          | inr high ↦
              let h' : Freeing m0 m (tb ∷ rest) F = rw (p, high) at h in
              rw (free_table, same, p, high)
                (then_table n i _ (some (true, m)) (m, F, refl, h', refl))
        ]
      ]

  free_tables-Freeing :
      (n i : ℕ) (F : List ℕ) (m : Vm)
      → Freeing m0 m (rest_of n i) F
      → LeavesPages m0 (pg ∷ []) (freed (rest_of n i) F) (for_each (free_table pg) n i m)
  unfolding for_each table_pages
  free_tables-Freeing zero i F m h = (m, F, refl, h, refl)
  free_tables-Freeing (suc n) i F m h =
      let rec = λ (m' : Vm) (F' : List ℕ). free_tables-Freeing n (i + 1) F' m' in
      for_each-suc m0 (free_table pg) n i m (rest_of n (i + 1)) (pg ∷ []) _
        (free_table-Freeing n i F m h) rec

-- `freevm` of a directory whose tables and pages below `KBASE` are all different, not free and such
-- as `kfree` accepts: it does not panic, and afterwards each of them, and the directory, is free once,
-- in front of the pages that were.
pub freevm-freed :
    (pg : ℕ) (m : Vm) (xs : List ℕ)
    → Freeing m m (space_pages m.word pg) xs
    → (m' : Vm) × (freevm pg m ≡ some m') × IsFree m'.pages (freed (space_pages m.word pg) xs)
unfolding freevm
freevm-freed pg m xs h =
    let (m1, F, e, h1, all) = free_tables-Freeing m pg 1024 0 xs m h in
    let (nz, ok) = h1.pages.0 in
    let other : (pg == 0) ≡ false = ground arith in
    let (m2, e2, h2) = kfree1-Freeing m m1 pg [] F h1 in
    (m2, rw (other, e, freevm) e2, subst (λ l. IsFree m2.pages l) all h2.free)
