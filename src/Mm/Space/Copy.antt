-- ===== src/Mm/Space/Copy.antt =====
-- `copyuvm` of mm/proc.c.
use jix.Base.{
  ℕ, zero, suc, ◌+◌, ◌*◌, ◌/◌, ◌%◌, ◌^◌, ◌≤◌, ◌<◌, ◌≡◌, refl, ap, ◌≢◌, inl, inr, Bool, true, false,
  Option, none, some, List, [], arith, ◌==◌, if◌then◌else◌, Bool-cases,
}
use jix.Mm.Pages.{page_size, kbase, phys_top, p2v}
use jix.Mm.FreeList.{Chain, Apart}
use jix.Mm.Vm.{Vm, present, pte_addr, table_of, klink, pdx, ptx}
use jix.Mm.Uvm.{for_each, copy_entry, copy_table, copy_all, copyuvm, freevm, user_tables}
use jix.Mm.Space.{view, entry-present, entry-absent, Frames}
use jix.Mm.Space.Child.{Ends, on, off, IsStuck, CopiedTo, Copied-skip, copy_page-Ends}
use jix.Mm.Space.Kernel.{Built, built, gave_up}
use jix.Mm.Space.SetUp.{kernel_entry, setupkvm-Built}

-- The rule for the loops.
pub for_each-Ends :
    (P : ℕ → Vm → Type 0) (Q : Vm → Type 0) (body : ℕ → Vm → Option (Bool × Vm)) (n i stop : ℕ)
    (m : Vm)
    → i + n ≡ stop
    → ((k : ℕ) (t : Vm) → i ≤ k → k < stop → P k t → Ends (P (k + 1)) Q (body k t))
    → P i m
    → Ends (P stop) Q (for_each body n i m)
unfolding for_each
for_each-Ends P Q body zero i stop m e keep h =
    let here : i ≡ stop = omega arith in on m (rw here at h)
for_each-Ends P Q body (suc n) i stop m e keep h =
    go
      (λ t p.
        for_each-Ends P Q body n (i + 1) stop t (omega arith)
          (λ k u lo hi. keep k u (omega arith) hi) p)
      _ (keep i m (omega arith) (omega arith) h)
  where
    go :
        ((t : Vm) → P (i + 1) t → Ends (P stop) Q (for_each body n (i + 1) t))
        → (r : Option (Bool × Vm)) → Ends (P (i + 1)) Q r
        → Ends (P stop) Q (elim r [
          | none ↦ none
          | some r ↦ elim r.0 [ false ↦ some (false, r.1) | true ↦ for_each body n (i + 1) r.1 ]
        ])
    go next _ (on t p) = next t p
    go next _ (off t q) = off t q

-- The directory at `src`, its tables and the pages below `KBASE` are pages of the set `Src`.
pub record IsParent (src : ℕ) (m0 : Vm) (Src : ℕ → Type 0) : Type 0 where
  pub dir : Src src
  pub tables :
      (i : ℕ) → i < user_tables → present (m0.word src i) ≡ true → Src (table_of (m0.word src i))
  pub pages :
      (q : ℕ)
      → q < kbase
      → present (view m0.word src q) ≡ true
      → Src (p2v (pte_addr (view m0.word src q)))

module _ (d src npg : ℕ) (m0 : Vm) (Src : ℕ → Type 0) (parent : IsParent src m0 Src) where
  -- The entry of an address in the table at entry `i`.
  old_entry :
      (i j q : ℕ)
      → present (m0.word src i) ≡ true
      → pdx q ≡ i
      → ptx q ≡ j
      → view m0.word src q ≡ m0.word (table_of (m0.word src i)) j
  unfolding view
  old_entry i j q p ei ej = rw (ei, ← ej) (entry-present m0.word (m0.word src i) q p)

  old_hole : (i q : ℕ) → present (m0.word src i) ≡ false → pdx q ≡ i → view m0.word src q ≡ 0
  unfolding view
  old_hole i q p e = rw e (entry-absent m0.word (m0.word src i) q p)

  copy_entry-Ends :
      (i k : ℕ) (t : Vm)
      → i < user_tables
      → k < 1024
      → present (m0.word src i) ≡ true
      → CopiedTo d src npg m0 Src (i * 1024 + k) t
      → Ends
          (CopiedTo d src npg m0 Src (i * 1024 + (k + 1)))
          (IsStuck npg)
          (copy_entry npg (table_of (m0.word src i)) i k t)
  unfolding copy_entry
  copy_entry-Ends i k t li lk p (ys, c) =
      let tb = table_of (m0.word src i) in
      let same : t.word tb k ≡ m0.word tb k =
        ap (λ (f : ℕ → ℕ). f k) (c.kept tb (parent.tables i li p)).1 in
      let at : (q : ℕ)
          → q < 2 ^ 32
          → q / page_size ≡ i * 1024 + k
          → view m0.word src q ≡ m0.word tb k =
        λ q lt e. old_entry i k q p (omega arith) (omega arith) in
      let next : i * 1024 + (k + 1) ≡ i * 1024 + k + 1 = omega arith in
      let va : i * 2 ^ 22 + k * 2 ^ 12 ≡ (i * 1024 + k) * page_size = omega arith in
      elim (Bool-cases (present (m0.word tb k))) [
        | inl here ↦
            let q0 = (i * 1024 + k) * page_size in
            let e0 = at q0 (omega arith) (omega arith) in
            rw (copy_entry, va, same, here, next)
              (copy_page-Ends d src npg m0 Src (i * 1024 + k) (m0.word tb k) t ys (omega arith) here
                at (rw e0 at (parent.pages q0 (omega arith) (rw e0 here))) c)
        | inr hole ↦
            rw (copy_entry, same, hole, next)
              (on t (
                ys,
                Copied-skip d src npg m0 Src (i * 1024 + k) 1 t ys (omega arith)
                    (λ q lt lo hi. rw (at q lt (omega arith)) hole) c,
              ))
      ]

  copy_table-Ends :
      (i : ℕ) (t : Vm)
      → i < user_tables
      → CopiedTo d src npg m0 Src (i * 1024) t
      → Ends (CopiedTo d src npg m0 Src ((i + 1) * 1024)) (IsStuck npg) (copy_table src npg i t)
  unfolding copy_table
  copy_table-Ends i t li (ys, c) =
      let same : t.word src i ≡ m0.word src i = ap (λ (f : ℕ → ℕ). f i) (c.kept src parent.dir).1 in
      let next : (i + 1) * 1024 ≡ i * 1024 + 1024 = omega arith in
      let zero_on : i * 1024 + 0 ≡ i * 1024 = omega arith in
      elim (Bool-cases (present (m0.word src i))) [
        | inl p ↦
            let rows =
              for_each-Ends (λ k u. CopiedTo d src npg m0 Src (i * 1024 + k) u) (IsStuck npg)
                (copy_entry npg (table_of (m0.word src i)) i) 1024 0 1024 t refl
                (λ k u lo hi. copy_entry-Ends i k u li hi p) (rw zero_on (ys, c)) in
            rw (copy_table, same, p, next) rows
        | inr n ↦
            rw (copy_table, same, n, next)
              (on t (
                ys,
                Copied-skip d src npg m0 Src (i * 1024) 1024 t ys (omega arith)
                    (λ q lt lo hi. rw (old_hole i q n (omega arith)) refl) c,
              ))
      ]

  copy_tables-Ends :
      (t : Vm)
      → CopiedTo d src npg m0 Src 0 t
      → Ends
          (CopiedTo d src npg m0 Src (user_tables * 1024))
          (IsStuck npg)
          (for_each (copy_table src npg) user_tables 0 t)
  copy_tables-Ends t c =
      for_each-Ends (λ i u. CopiedTo d src npg m0 Src (i * 1024) u) (IsStuck npg)
        (copy_table src npg) user_tables 0 user_tables t refl (λ k u lo hi. copy_table-Ends k u hi)
        c

-- What `copyuvm` returns: a child for all pages below `KBASE`; NULL, with no page free; or what
-- `freevm` of the child makes of it when no page is free.
pub data Forked (d src : ℕ) (m0 : Vm) (Src : ℕ → Type 0) : Option (ℕ × Vm) → Type 0 where
  forked :
      (npg : ℕ) (m : Vm)
      → CopiedTo d src npg m0 Src (user_tables * 1024) m
      → Forked d src m0 Src (some (npg, m))
  no_directory :
      (m : Vm) → Chain m.pages.next m.pages.free_list [] → Forked d src m0 Src (some (0, m))
  undone :
      (npg : ℕ) (m : Vm)
      → IsStuck npg m
      → Forked d src m0 Src (elim (freevm npg m) [ none ↦ none | some m' ↦ some (0, m') ])

copy_all-Forked :
    (d src npg : ℕ) (m0 m : Vm) (Src : ℕ → Type 0)
    → IsParent src m0 Src
    → CopiedTo d src npg m0 Src 0 m
    → Forked d src m0 Src (copy_all src npg m)
unfolding copy_all
copy_all-Forked d src npg m0 m Src parent c = go _ (copy_tables-Ends d src npg m0 Src parent m c)
  where
    go :
        (r : Option (Bool × Vm))
        → Ends (CopiedTo d src npg m0 Src (user_tables * 1024)) (IsStuck npg) r
        → Forked d src m0 Src (elim r [
          | none ↦ none
          | some r ↦ elim r.0 [
            | true ↦ some (npg, r.1)
            | false ↦ elim (freevm npg r.1) [ none ↦ none | some m' ↦ some (0, m') ]
          ]
        ])
    go _ (on t done) = forked npg t done
    go _ (off t stuck) = undone npg t stuck

-- `copyuvm`, for a parent none of whose pages is free: the child has, for each page that the parent
-- has mapped below `KBASE`, a page that was free before, with the same contents, and maps nothing else
-- there; above it has the kernel's half; and no page that was not free has changed. If it does not
-- get that far, no page is free: it returns NULL, or what `freevm` of the child leads to.
pub copyuvm-Forked :
    (d src : ℕ) (m : Vm) (xs : List ℕ)
    → klink < d
    → d < p2v phys_top
    → d % page_size ≡ 0
    → Chain m.pages.next m.pages.free_list xs
    → Frames xs
    → IsParent src m (λ p. Apart p xs)
    → Forked d src m (λ p. Apart p xs) (copyuvm d src m)
unfolding copyuvm
copyuvm-Forked d src m xs lo hi al free frames parent =
    let (pg, nz, made) = setupkvm-Built d lo hi al m xs free frames in go pg nz _ made
  where
    go :
        (pg : ℕ)
        → pg ≢ 0
        → (r : Option (ℕ × Vm)) → Built (kernel_entry d) pg (λ p. Apart p xs) m r
        → Forked d src m
            (λ p. Apart p xs)
            (elim r [
              | none ↦ none
              | some r ↦ if r.0 == 0 then some (0, r.1) else copy_all src r.0 r.1
            ])
    go pg nz _ (gave_up m' h) = no_directory m' h
    go pg nz _ (built m' ys h means keeps) =
        let other : (pg == 0) ≡ false = ground arith in
        rw other (
          copy_all-Forked d src pg m m' (λ p. Apart p xs) parent
            (
              ys,
              record {
                space = h;
                copies = λ q lt le. absurd (omega arith);
                holes = λ q lt le. absurd (omega arith);
                after = λ q lt le. means q lt;
                kept = keeps;
              },
            ))
