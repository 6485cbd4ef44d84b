-- ===== src/Mm/Space/Grow.antt =====
-- `allocuvm` of mm/exec.c, when there is memory enough.
use jix.Base.{
  ℕ, zero, suc, ◌+◌, ◌*◌, ◌/◌, ◌%◌, ◌^◌, ◌≤◌, ◌<◌, ◌≡◌, refl, sym, ap, ◌∙◌, ◌≢◌, inl, inr, Bool,
  true, false, Option, none, some, List, [], ◌∷◌, arith, ltb, ◌==◌, if◌then◌else◌, Bool-cases,
  length, ℤ,
}
use jix.Mm.Pages.{page_size, kbase, v2p}
use jix.Mm.Vm.{Vm, page_down, page_up}
use jix.Mm.Uvm.{alloc_from, alloc_fuel, allocuvm}
use jix.Mm.Space.{view, IsFrame, IsSpace, IsOwn, Keeps, Keeps-trans}
use jix.Mm.Space.Walk.{kalloc1-cons}
use jix.Mm.Space.Map.{Maps}
use jix.Mm.Space.Range.{Inside, Outside, IsClear}
use jix.Mm.Space.Place.{Placed, placed, unplaced, mappages-Placed}

-- `q` has an empty page of its own, for the user to write, which no page in use was.
pub record IsNew (pg q : ℕ) (m : Vm) (xs : List ℕ) (m' : Vm) (ys : List ℕ) (x : ℕ) : Type 0 where
  pub frame : IsFrame x
  pub entry : view m'.word pg q ≡ v2p x + 7
  pub own : IsOwn (m'.word pg) pg ys x
  pub empty : m'.word x ≡ (λ i. 0)
  pub not_shared : (p : ℕ) → IsOwn (m.word pg) pg xs p → p ≢ x

-- The `n` pages from the one of `a` on are new and apart, and everything else is as it was.
pub record Grown (pg a n : ℕ) (m : Vm) (xs : List ℕ) (m' : Vm) (ys : List ℕ) : Type 0 where
  pub space : IsSpace m'.pages (m'.word pg) pg ys
  pub fresh : (q : ℕ) → q < 2 ^ 32 → Inside a n q → (x : ℕ) × IsNew pg q m xs m' ys x
  pub apart :
      (q r : ℕ)
      → q < 2 ^ 32
      → r < 2 ^ 32
      → Inside a n q
      → Inside a n r
      → q / page_size ≢ r / page_size
      → view m'.word pg q ≢ view m'.word pg r
  pub same : (q : ℕ) → q < 2 ^ 32 → Outside a n q → view m'.word pg q ≡ view m.word pg q
  pub keeps : Keeps pg m xs m' ys

abbrev pub GrowsTo : ℕ → ℕ → ℕ → Vm → List ℕ → Option (Bool × Vm) → Type 0
GrowsTo pg a n m xs r = (m' : Vm) × (ys : List ℕ) × (r ≡ some (true, m')) × Grown pg a n m xs m' ys

-- The first page is not one of those behind it.
first-apart :
    (pg a n x : ℕ) (m1 m' : Vm) (ys zs : List ℕ)
    → IsFrame x
    → IsOwn (m1.word pg) pg ys x
    → Grown pg (a + page_size) n m1 ys m' zs
    → (q r : ℕ) → r < 2 ^ 32
    → Inside (a + page_size) n r
    → view m'.word pg q ≡ v2p x + 7
    → view m'.word pg q ≢ view m'.word pg r
first-apart pg a n x m1 m' ys zs (al, above, top) own h q r lt within e same =
    let (y, new) = h.fresh r lt within in
    let (al', above', top') = new.frame in
    let ne = new.not_shared x own in
    let eq : v2p x + 7 ≡ v2p y + 7 = sym e ∙ same ∙ new.entry in ne (omega arith)

-- One new page in front.
Grown-suc :
    (pg a n x : ℕ) (m m1 m' : Vm) (xs ys zs : List ℕ)
    → IsFrame x
    → IsOwn (m1.word pg) pg ys x
    → m1.word x ≡ (λ i. 0)
    → Maps pg a (v2p x + 7) m m1
    → Keeps pg m (x ∷ xs) m1 ys
    → Grown pg (a + page_size) n m1 ys m' zs
    → Grown pg a (suc n) m (x ∷ xs) m' zs
Grown-suc pg a n x m m1 m' xs ys zs frame own empty maps keeps h = record {
  space = h.space;
  fresh = λ q lt (lo, hi). elim (Bool-cases (q / page_size == a / page_size)) [
    | inl e ↦
        let (own', kept) = h.keeps x own in
        (
          x,
          record {
            frame = frame;
            entry = h.same q lt (ground arith) ∙ rw e at (maps q lt);
            own = own';
            empty = kept ∙ empty;
            not_shared = λ p is. is.not_free.0;
          },
        )
    | inr ne ↦
        let (y, new) = h.fresh q lt (ground arith) in
        (
          y,
          record {
            frame = new.frame;
            entry = new.entry;
            own = new.own;
            empty = new.empty;
            not_shared = λ p is. new.not_shared p (keeps p is).0;
          },
        )
  ];
  apart = λ q r lq lr in_q in_r ne_qr. elim (Bool-cases (q / page_size == a / page_size)) [
    | inl e ↦
        first-apart pg a n x m1 m' ys zs frame own h q r lr (ground arith)
          (h.same q lq (ground arith) ∙ rw e at (maps q lq))
    | inr ne ↦ elim (Bool-cases (r / page_size == a / page_size)) [
      | inl e ↦ λ same.
          first-apart pg a n x m1 m' ys zs frame own h r q lq (ground arith)
            (h.same r lr (ground arith) ∙ rw e at (maps r lr)) (sym same)
      | inr ne' ↦ h.apart q r lq lr (ground arith) (ground arith) ne_qr
    ]
  ];
  same = λ q lt out.
      let ne : (q / page_size == a / page_size) ≡ false = ground arith in
      h.same q lt (omega arith) ∙ rw ne at (maps q lt);
  keeps = Keeps-trans pg m m1 m' (x ∷ xs) ys zs keeps h.keeps;
}

abbrev LoopGrows : ℕ → ℕ → ℕ → ℕ → Type 0
LoopGrows f n pg end =
    (a : ℕ) (m : Vm) (xs : List ℕ)
    → a % page_size ≡ 0
    → end ≤ a + n * page_size
    → a + n * page_size < end + page_size
    → n + n ≤ length xs
    → IsClear pg a n m
    → IsSpace m.pages (m.word pg) pg xs
    → GrowsTo pg a n m xs (alloc_from f pg end a m)

alloc_from-Grown : (f n pg end : ℕ) → n < f → end ≤ kbase → LoopGrows f n pg end
unfolding alloc_from
alloc_from-Grown zero n pg end lf hi a m xs al up low room clear h = absurd (omega arith)
alloc_from-Grown (suc f) zero pg end lf hi a m xs al up low room clear h =
    let stop : ltb a end ≡ false = ground arith in
    (
      m,
      xs,
      rw (stop, alloc_from) refl,
      record {
        space = h;
        fresh = λ q lt within. absurd (omega arith);
        apart = λ q r lq lr within. absurd (omega arith);
        same = λ q lt out. refl;
        keeps = λ p own. (own, refl);
      },
    )
alloc_from-Grown (suc f) (suc n) pg end lf hi a m [] al up low room clear h = absurd (omega arith)
alloc_from-Grown (suc f) (suc n) pg end lf hi a m (x ∷ xs) al up low room clear h =
    let rec = alloc_from-Grown f n pg end (omega arith) hi in
    let more : ltb a end ≡ true = ground arith in
    let nz : (x == 0) ≡ false = ground (arith, h.frames.0) in
    let one =
      mappages-Placed pg a m x xs (λ i. 0) (omega arith) al (λ q lt e. clear q lt (omega arith))
        h in
    rw (more, alloc_from, kalloc1-cons m x xs h.free, nz) (go rec _ one)
  where
    go :
        LoopGrows f n pg end
        → (r : Option (ℤ × Vm)) → Placed pg a x (λ i. 0) m xs r
        → GrowsTo pg a
            (suc n)
            m
            (x ∷ xs)
            (elim r [ none ↦ none | some s ↦ alloc_from f pg end ((a + page_size) % 2 ^ 32) s.1 ])
    go rec _ (unplaced m1 h1 e) = let none_left : length xs ≡ 0 = rw e refl in absurd (omega arith)
    go rec _ (placed m1 ys h1 len own empty maps keeps) =
        let there : (a + page_size) % 2 ^ 32 ≡ a + page_size = omega arith in
        let rest : IsClear pg (a + page_size) n m1 = λ q lt within.
          let ne : (q / page_size == a / page_size) ≡ false = ground arith in
          let old : view m1.word pg q ≡ view m.word pg q = rw ne at (maps q lt) in
          rw old (clear q lt (omega arith)) in
        let after =
          rec (a + page_size) m1 ys (omega arith) (omega arith) (omega arith) (omega arith) rest
            h1 in
        rw there (add after)
      where
        add :
            {r : Option (Bool × Vm)}
            → GrowsTo pg (a + page_size) n m1 ys r
            → GrowsTo pg a (suc n) m (x ∷ xs) r
        add (m', zs, e, grown) =
            (m', zs, e, Grown-suc pg a n x m m1 m' xs ys zs h.frames.0 own empty maps keeps grown)

-- `allocuvm` for addresses below `KBASE` none of which is mapped yet, with twice as many free pages
-- as the range has pages: it returns the end of the range, rounded up, and each page of the range is
-- mapped to an empty page that was free, for the user to write, different pages to different ones. Every other address means what it
-- did, and every other page has the contents that it had.
pub allocuvm-Grown :
    (pg addr len n : ℕ) (m : Vm) (xs : List ℕ)
    → addr + len ≤ kbase
    → addr + len ≤ page_down addr + n * page_size
    → page_down addr + n * page_size < addr + len + page_size
    → n + n ≤ length xs
    → IsClear pg (page_down addr) n m
    → IsSpace m.pages (m.word pg) pg xs
    → (m' : Vm) × (ys : List ℕ) × (allocuvm pg addr len m ≡ some (page_up (addr + len), m'))
      × Grown pg (page_down addr) n m xs m' ys
unfolding allocuvm
allocuvm-Grown pg addr len n m xs hi up low room clear h =
    let no_wrap : (addr + len) % 2 ^ 32 ≡ addr + len = omega arith in
    let ok : ltb kbase (addr + len) ≡ false = ground arith in
    rw (no_wrap, ok)
      (go _ (
        alloc_from-Grown alloc_fuel n pg (addr + len) (omega arith) hi (page_down addr) m xs
          (omega arith) up low room clear h))
  where
    outcome : Option (Bool × Vm) → Option (ℕ × Vm)
    outcome none = none
    outcome (some s) = some (if s.0 then page_up ((addr + len) % 2 ^ 32) else 0, s.1)

    go :
        (r : Option (Bool × Vm))
        → GrowsTo pg (page_down addr) n m xs r
        → (m' : Vm) × (ys : List ℕ) × (outcome r ≡ some (page_up (addr + len), m'))
          × Grown pg (page_down addr) n m xs m' ys
    go r (m', ys, e, grown) =
        (m', ys, ap outcome e ∙ ap (λ v. some (page_up v, m')) (omega arith), grown)

-- `allocuvm` refuses a range that ends above `KBASE`, and changes nothing.
pub allocuvm_refuses :
    (pg addr len : ℕ) (m : Vm)
    → kbase < (addr + len) % 2 ^ 32
    → allocuvm pg addr len m ≡ some (0, m)
unfolding allocuvm
allocuvm_refuses pg addr len m hi = ground arith
