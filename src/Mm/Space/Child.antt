-- ===== src/Mm/Space/Child.antt =====
-- What `copyuvm` of mm/proc.c has done when it is through with some pages: the invariant of its loops,
-- and the page that it copies next.
use jix.Base.{
  ℕ, ◌+◌, ◌*◌, ◌/◌, ◌^◌, ◌≤◌, ◌<◌, ◌≡◌, refl, sym, ◌∙◌, ◌≢◌, inl, inr, Bool, true, false, not,
  Option, none, some, List, [], ◌∷◌, arith, ltb, ◌==◌, Bool-cases, ℤ, is_neg,
}
use jix.Mm.Pages.{page_size, kbase, v2p, p2v}
use jix.Mm.Vm.{Vm, present, pte_addr}
use jix.Mm.Uvm.{copy_page}
use jix.Mm.Space.{view, IsFrame, IsSpace, IsOwn, Keeps}
use jix.Mm.Space.Walk.{kalloc1-nil, kalloc1-cons}
use jix.Mm.Space.Map.{Maps}
use jix.Mm.Space.Place.{Placed, placed, unplaced, mappages-Placed}
use jix.Mm.Space.SetUp.{kernel_entry}

-- A round of a loop goes on with `P`, or leaves it with `Q`.
pub data Ends (P Q : Vm → Type 0) : Option (Bool × Vm) → Type 0 where
  on : (m : Vm) → P m → Ends P Q (some (true, m))
  off : (m : Vm) → Q m → Ends P Q (some (false, m))

-- The directory at `pg` has been left with no page free.
abbrev pub IsStuck : ℕ → Vm → Type 0
IsStuck pg m = IsSpace m.pages (m.word pg) pg []

module _ (d src npg : ℕ) (m0 : Vm) (Src : ℕ → Type 0) where
  -- The entry of the parent for `q`.
  abbrev pub old : ℕ → ℕ
  old q = view m0.word src q

  -- The child has a page of its own for `q`, with the contents of the parent's.
  pub record CopyOf (q : ℕ) (m : Vm) (ys : List ℕ) (x : ℕ) : Type 0 where
    pub frame : IsFrame x
    pub entry : view m.word npg q ≡ v2p x + 7
    pub own : IsOwn (m.word npg) npg ys x
    pub contents : m.word x ≡ m0.word (p2v (pte_addr (old q)))
    pub not_shared : (p : ℕ) → Src p → p ≢ x

  -- The child after the pages below number `n`.
  pub record Copied (n : ℕ) (m : Vm) (ys : List ℕ) : Type 0 where
    pub space : IsSpace m.pages (m.word npg) npg ys
    pub copies :
        (q : ℕ)
        → q < 2 ^ 32
        → q / page_size < n
        → present (old q) ≡ true
        → (x : ℕ) × CopyOf q m ys x
    pub holes :
        (q : ℕ) → q < 2 ^ 32 → q / page_size < n → present (old q) ≡ false → view m.word npg q ≡ 0
    pub after : (q : ℕ) → q < 2 ^ 32 → n ≤ q / page_size → view m.word npg q ≡ kernel_entry d q
    pub kept : (p : ℕ) → Src p → IsOwn (m.word npg) npg ys p × (m.word p ≡ m0.word p)

  abbrev pub CopiedTo : ℕ → Vm → Type 0
  CopiedTo n m = (ys : List ℕ) × Copied n m ys

  -- The page `n` is mapped in the parent, and is copied to the free page `x`.
  Copied-next :
      (n : ℕ) (m m' : Vm) (x : ℕ) (xs ys : List ℕ)
      → ((q : ℕ) → q < 2 ^ 32 → q / page_size ≡ n → present (old q) ≡ true)
      → ((q : ℕ) → q < 2 ^ 32 → q / page_size ≡ n → m0.word (p2v (pte_addr (old q))) ≡ m'.word x)
      → Copied n m (x ∷ xs)
      → IsSpace m'.pages (m'.word npg) npg ys
      → IsOwn (m'.word npg) npg ys x
      → Maps npg (n * page_size) (v2p x + 7) m m'
      → Keeps npg m (x ∷ xs) m' ys
      → Copied (n + 1) m' ys
  Copied-next n m m' x xs ys here same c space own maps keeps = record {
    space = space;
    copies = λ q lt le p. elim (Bool-cases (q / page_size == n * page_size / page_size)) [
      | inl e ↦ (
        x,
        record {
          frame = c.space.frames.0;
          entry = rw e at (maps q lt);
          own = own;
          contents = sym (same q lt (ground arith));
          not_shared = λ s is. (c.kept s is).0.not_free.0;
        },
      )
      | inr ne ↦
          let (y, copy) = c.copies q lt (ground arith) p in
          let (own', contents') = keeps y copy.own in
          (
            y,
            record {
              frame = copy.frame;
              entry = rw ne at (maps q lt) ∙ copy.entry;
              own = own';
              contents = contents' ∙ copy.contents;
              not_shared = copy.not_shared;
            },
          )
    ];
    holes = λ q lt le p. elim (Bool-cases (q / page_size == n * page_size / page_size)) [
      | inl e ↦ let p' : true ≡ false = rw (here q lt (ground arith)) at p in absurd (ground arith)
      | inr ne ↦ rw ne at (maps q lt) ∙ c.holes q lt (ground arith) p
    ];
    after = λ q lt le.
        let ne : (q / page_size == n * page_size / page_size) ≡ false = ground arith in
        rw ne at (maps q lt) ∙ c.after q lt (omega arith);
    kept = λ s is. let (o, w) = c.kept s is in let (o', w') = keeps s o in (o', w' ∙ w);
  }

  user_half : (q : ℕ) → q < kbase → kernel_entry d q ≡ 0
  unfolding kernel_entry
  user_half q lt = ground arith

  -- No page of the `k` from number `n` on is mapped in the parent.
  pub Copied-skip :
      (n k : ℕ) (m : Vm) (ys : List ℕ)
      → (n + k) * page_size ≤ kbase
      → ((q : ℕ) → q < 2 ^ 32 → n ≤ q / page_size → q / page_size < n + k → present (old q) ≡ false)
      → Copied n m ys
      → Copied (n + k) m ys
  Copied-skip n k m ys low here c = record {
    space = c.space;
    copies = λ q lt le p. elim (Bool-cases (ltb (q / page_size) n)) [
      | inl e ↦ c.copies q lt (ground arith) p
      | inr ne ↦
          let p' : false ≡ true = rw (here q lt (ground arith) le) at p in absurd (ground arith)
    ];
    holes = λ q lt le p. elim (Bool-cases (ltb (q / page_size) n)) [
      | inl e ↦ c.holes q lt (ground arith) p
      | inr ne ↦ c.after q lt (ground arith) ∙ user_half q (ground arith)
    ];
    after = λ q lt le. c.after q lt (omega arith);
    kept = c.kept;
  }

  pub copy_page-Ends :
      (n pte : ℕ) (m : Vm) (ys : List ℕ)
      → n * page_size < kbase
      → present pte ≡ true
      → ((q : ℕ) → q < 2 ^ 32 → q / page_size ≡ n → old q ≡ pte)
      → Src (p2v (pte_addr pte))
      → Copied n m ys
      → Ends (CopiedTo (n + 1)) (IsStuck npg) (copy_page npg (n * page_size) pte m)
  unfolding copy_page
  copy_page-Ends n pte m [] low p here is c =
      rw (copy_page, kalloc1-nil m c.space.free) (off m c.space)
  copy_page-Ends n pte m (x ∷ xs) low p here is c =
      let nz : (x == 0) ≡ false = ground (arith, c.space.frames.0) in
      let frame = m.word (p2v (pte_addr pte)) in
      let clear : (q : ℕ)
          → q < 2 ^ 32
          → q / page_size ≡ n * page_size / page_size
          → present (view m.word npg q) ≡ false =
        λ q lt e. rw (c.after q lt (omega arith), user_half q (omega arith)) refl in
      let done =
        mappages-Placed npg (n * page_size) m x xs frame (omega arith) (omega arith) clear
          c.space in
      rw (copy_page, kalloc1-cons m x xs c.space.free, nz) (go _ done)
    where
      go :
          (r : Option (ℤ × Vm))
          → Placed npg (n * page_size) x (m.word (p2v (pte_addr pte))) m xs r
          → Ends
              (CopiedTo (n + 1))
              (IsStuck npg)
              (elim r [ none ↦ none | some s ↦ some (not (is_neg s.0), s.1) ])
      go _ (unplaced m' h e) = off m' h
      go _ (placed m' zs h len own contents maps keeps) =
          let (o, w) = c.kept _ is in
          on m' (
            zs,
            Copied-next n m m' x xs zs (λ q lt e. rw (here q lt e) p)
                (λ q lt e. rw (here q lt e) (sym w ∙ sym contents)) c h own maps keeps,
          )
