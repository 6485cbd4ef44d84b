-- ===== src/Mm/Space/Walk.antt =====
-- `walkpgdir` of mm/vm.c with the allocator `kalloc1`: a new page table is empty, and is linked in
-- without touching what the other addresses mean.
use jix.Base.{
  ℕ, ◌+◌, ◌≤◌, ◌<◌, ◌≡◌, refl, sym, ap, ◌∙◌, ◌≢◌, inl, inr, true, false, Option, none, some, List,
  [], ◌∷◌, arith, ◌==◌, if◌then◌else◌, Bool-cases, length, update, update-ne,
}
use jix.Mm.Pages.{Pages, kalloc}
use jix.Mm.FreeList.{Chain, Apart, kalloc-cons, kalloc-nil}
use jix.Mm.Vm.{Vm, pdx, ptx, present, table_of, table_entry, kalloc1, walk_new, walkpgdir}
use jix.Mm.Space.{
  view, entry-present, entry-absent, entry-same, IsSpace, IsOwn, Keeps, IsOwn, Keeps,
  table_entry-present, table_entry-table,
}

-- The memory with the new table `x` at entry `i` of the directory.
unfoldable grown : (ℕ → ℕ → ℕ) → ℕ → ℕ → ℕ → ℕ → ℕ → ℕ
grown t pg i x = let t1 = update t x (λ j. 0) in update t1 pg (update (t1 pg) i (table_entry x))

module _ (t : ℕ → ℕ → ℕ) (pg i x : ℕ) where
  grown-dir : (j : ℕ) → pg ≢ x → grown t pg i x pg j ≡ (if j == i then table_entry x else t pg j)
  unfolding grown
  grown-dir j ne = ground arith

  grown-new : (j : ℕ) → pg ≢ x → grown t pg i x x j ≡ 0
  unfolding grown
  grown-new j ne = ground arith

  grown-other : (p : ℕ) → p ≢ pg → p ≢ x → grown t pg i x p ≡ t p
  unfolding grown
  grown-other p a b =
      update-ne (update t x (λ j. 0)) pg p _ (λ e. a (sym e)) ∙ update-ne t x p _ (λ e. b (sym e))

  module _ (g : Pages) (xs : List ℕ) (h : IsSpace g (t pg) pg (x ∷ xs)) where
    grown-here : grown t pg i x pg i ≡ table_entry x
    grown-here = let same : (i == i) ≡ true = ground arith in rw same at (grown-dir i h.dir.0)

    grown-there : (j : ℕ) → j ≢ i → grown t pg i x pg j ≡ t pg j
    grown-there j ne =
        let other : (j == i) ≡ false = ground arith in rw other at (grown-dir j h.dir.0)

    grown-table : table_of (grown t pg i x pg i) ≡ x
    grown-table = ap table_of grown-here ∙ table_entry-table x h.frames.0

    grown-view : present (t pg i) ≡ false → (q : ℕ) → view (grown t pg i x) pg q ≡ view t pg q
    unfolding view
    grown-view absent q = elim (Bool-cases (pdx q == i)) [
      | inl e ↦
          let e' : pdx q ≡ i = ground arith in
          rw (e', grown-here)
            (entry-present _ _ q (table_entry-present x)
              ∙ rw (table_entry-table x h.frames.0) (grown-new (ptx q) h.dir.0)
              ∙ sym (entry-absent t (t pg i) q absent))
      | inr ne ↦ rw (grown-there (pdx q) (ground arith)) (
          entry-same _ t (t pg (pdx q)) q λ p.
            let (a, b) = h.tables (pdx q) (omega arith) p in
            ap (λ (f : ℕ → ℕ). f (ptx q)) (grown-other (table_of (t pg (pdx q))) a b.0))
    ]

    grown-tables :
        Apart x xs
        → (j : ℕ) → j < 1024
        → present (grown t pg i x pg j) ≡ true
        → (table_of (grown t pg i x pg j) ≢ pg) × Apart (table_of (grown t pg i x pg j)) xs
    grown-tables new j lt p = elim (Bool-cases (j == i)) [
      | inl e ↦ let e' : j ≡ i = ground arith in rw (e', grown-table) ((λ z. h.dir.0 (sym z)), new)
      | inr ne ↦
          let same = grown-there j (ground arith) in
          let (a, b) = h.tables j lt (rw same at p) in rw same (a, b.1)
    ]

    grown-single :
        (j k : ℕ)
        → j < 1024
        → k < 1024
        → present (grown t pg i x pg j) ≡ true
        → present (grown t pg i x pg k) ≡ true
        → j ≢ k
        → table_of (grown t pg i x pg j) ≢ table_of (grown t pg i x pg k)
    grown-single j k lj lk pj pk ne = elim (Bool-cases (j == i)) [
      | inl e ↦
          let e' : j ≡ i = ground arith in
          let same = grown-there k (ground arith) in
          let (a, b) = h.tables k lk (rw same at pk) in
          rw (e', grown-table, same) (λ z. b.0 (sym z))
      | inr other ↦
          let sj = grown-there j (ground arith) in
          let (a, b) = h.tables j lj (rw sj at pj) in
          elim (Bool-cases (k == i)) [
            | inl e ↦ let e' : k ≡ i = ground arith in rw (e', grown-table, sj) (λ z. b.0 z)
            | inr ok ↦
                let sk = grown-there k (ground arith) in
                rw (sj, sk) (h.single j k lj lk (rw sj at pj) (rw sk at pk) ne)
          ]
    ]

    grown-Keeps :
        (p : ℕ)
        → IsOwn (t pg) pg (x ∷ xs) p
        → IsOwn (grown t pg i x pg) pg xs p × (grown t pg i x p ≡ t p)
    grown-Keeps p own = (
      record {
        not_dir = own.not_dir;
        not_free = own.not_free.1;
        not_table = λ j lt here. elim (Bool-cases (j == i)) [
          | inl e ↦
              let e' : j ≡ i = ground arith in rw (e', grown-table) (λ z. own.not_free.0 (sym z))
          | inr ne ↦
              let same = grown-there j (ground arith) in
              rw same (own.not_table j lt (rw same at here))
        ];
      },
      grown-other p own.not_dir own.not_free.0,
    )

-- What `walkpgdir` with `kalloc1` returns: the place that holds the entry of the address, with at
-- most one free page used up and every address as before, or NULL when no page is free.
pub data Walked (pg va : ℕ) (m : Vm) (xs : List ℕ) : Option (Option (ℕ × ℕ) × Vm) → Type 0 where
  found :
      (m' : Vm) (ys : List ℕ)
      → IsSpace m'.pages (m'.word pg) pg ys
      → length xs ≤ length ys + 1
      → present (m'.word pg (pdx va)) ≡ true
      → ((q : ℕ) → view m'.word pg q ≡ view m.word pg q)
      → Keeps pg m xs m' ys
      → Walked pg va m xs (some (some (table_of (m'.word pg (pdx va)), ptx va), m'))
  full : xs ≡ [] → Walked pg va m xs (some (none, m))

pub kalloc1-nil : (m : Vm) → Chain m.pages.next m.pages.free_list [] → kalloc1 m ≡ some (0, m)
unfolding kalloc1
kalloc1-nil m h = rw (kalloc-nil m.pages h) refl

pub kalloc1-cons :
    (m : Vm) (x : ℕ) (xs : List ℕ)
    → Chain m.pages.next m.pages.free_list (x ∷ xs)
    → kalloc1 m ≡ some (x, record m { pages = (kalloc m.pages).1 })
unfolding kalloc1
kalloc1-cons m x xs h =
    ap (λ y. some (y, record m { pages = (kalloc m.pages).1 })) (kalloc-cons m.pages x xs h).0

-- The new table at work.
grown-Space :
    (m : Vm) (pg i x : ℕ) (xs : List ℕ)
    → IsSpace m.pages (m.word pg) pg (x ∷ xs)
    → IsSpace (kalloc m.pages).1 (grown m.word pg i x pg) pg xs
grown-Space m pg i x xs h =
    let (at, rest, new) = kalloc-cons m.pages x xs h.free in
    record {
      free = rest;
      frames = h.frames.1;
      dir = h.dir.1;
      tables = grown-tables m.word pg i x m.pages xs h new;
      single = grown-single m.word pg i x m.pages xs h;
    }

walk_new-nil : (pg va : ℕ) (m : Vm) → walk_new pg va (0, m) ≡ (none, m)
unfolding walk_new
walk_new-nil pg va m = refl

walk_new-grown :
    (pg va x : ℕ) (m : Vm)
    → x ≢ 0
    → walk_new pg va (x, m) ≡ (some (x, ptx va), record m { word = grown m.word pg (pdx va) x })
unfolding walk_new grown
walk_new-grown pg va x m nz = ground arith

pub walkpgdir-Walked :
    (pg va : ℕ) (m : Vm) (xs : List ℕ)
    → IsSpace m.pages (m.word pg) pg xs
    → Walked pg va m xs (walkpgdir (some kalloc1) pg va m)
unfolding walkpgdir
walkpgdir-Walked pg va m xs h = elim (Bool-cases (present (m.word pg (pdx va)))) [
  | inl p ↦ rw p (found m xs h (omega arith) p (λ q. refl) (λ p own. (own, refl)))
  | inr absent ↦ rw absent (go absent xs h)
]
  where
    go :
        present (m.word pg (pdx va)) ≡ false
        → (xs : List ℕ) → IsSpace m.pages (m.word pg) pg xs
        → Walked pg va m xs (elim (kalloc1 m) [ none ↦ none | some r ↦ some (walk_new pg va r) ])
    go absent [] h = rw (kalloc1-nil m h.free, walk_new-nil pg va m) (full refl)
    go absent (x ∷ xs) h =
        let nz : x ≢ 0 = omega arith in
        let m1 : Vm = record m { pages = (kalloc m.pages).1; word = grown m.word pg (pdx va) x } in
        let here = grown-here m.word pg (pdx va) x m.pages xs h in
        let table = grown-table m.word pg (pdx va) x m.pages xs h in
        let done : Walked pg va m (x ∷ xs)
            (some (some (table_of (m1.word pg (pdx va)), ptx va), m1)) =
          found m1 xs (grown-Space m pg (pdx va) x xs h) (omega arith)
            (rw here (table_entry-present x)) (grown-view m.word pg (pdx va) x m.pages xs h absent)
            (grown-Keeps m.word pg (pdx va) x m.pages xs h) in
        rw
          (
            kalloc1-cons m x xs h.free,
            walk_new-grown pg va x (record m { pages = (kalloc m.pages).1 }) nz,
          )
          (rw table at done)
