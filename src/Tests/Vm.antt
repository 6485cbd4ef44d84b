-- ===== src/Tests/Vm.antt =====
-- Tests of the page tables.
use jix.Base.{
  ℕ, ◌+◌, ◌-◌, ◌<◌, ◌≡◌, refl, sym, ◌∙◌, subst, ◌≢◌, ◌⊎◌, inl, inr, true, false, ◌&&◌, some, List,
  [], ◌∷◌, arith, ◌==◌, if◌then◌else◌, Bool-cases,
}
use jix.Mm.Pages.{Pages, page_size, kbase, p2v}
use jix.Mm.FreeList.{Chain, Apart}
use jix.Mm.Vm.{Vm, present, kalloc1, mappages, setupkvm, page_up, pdx, ptx, pte_addr}
use jix.Mm.Uvm.{allocuvm, copyuvm, freevm}
use jix.Mm.Space.{view, entry, entry-absent, entry-present, Frames, IsSpace}
use jix.Mm.Space.Range.{Ranged}
use jix.Mm.Space.MapPages.{mappages-Ranged}
use jix.Mm.Space.Kernel.{Built}
use jix.Mm.Space.SetUp.{kernel_entry, setupkvm-Built}
use jix.Mm.Space.Copy.{Forked, IsParent, copyuvm-Forked}
use jix.Mm.Space.Free.{freed, entry_pages, table_pages, space_pages, Freeing}
use jix.Mm.Space.FreeAll.{freevm-freed}
use jix.Mm.FreeList.{IsFree}
use jix.Mm.Space.Grow.{Grown, allocuvm-Grown}

-- Three free pages.
abbrev three : List ℕ
three = 0x8DFFD000 ∷ 0x8DFFE000 ∷ 0x8DFFF000 ∷ []

abbrev three_pages : Pages
three_pages = record {
  free_list = 0x8DFFD000;
  new_end = 0x80200000;
  next = λ a. if a == 0x8DFFF000 then 0 else a + page_size;
}

three-Chain : Chain three_pages.next three_pages.free_list three
three-Chain = ground arith

three-Frames : Frames three
three-Frames = ground arith

-- A directory, its first table and the first page of a program.
abbrev dir : ℕ
dir = 0x80400000

abbrev table : ℕ
table = 0x80401000

abbrev page : ℕ
page = 0x80402000

-- Nothing is mapped.
abbrev empty_vm : Vm
empty_vm = record { pages = three_pages; word = λ p i. 0 }

empty-Space : IsSpace empty_vm.pages (empty_vm.word dir) dir three
empty-Space = record {
  free = three-Chain;
  frames = three-Frames;
  dir = ground arith;
  tables = λ i lt p. absurd (ground arith);
  single = λ i j li lj p. absurd (ground arith);
}

empty-view : (q : ℕ) → view empty_vm.word dir q ≡ 0
unfolding view
empty-view q = entry-absent empty_vm.word 0 q refl

mappages-Ranged_example :
    Ranged dir 0x400000 0x100000 6 1 empty_vm three
      (mappages dir 0x400000 0x1000 0x100000 6 (some kalloc1) empty_vm)
mappages-Ranged_example =
    mappages-Ranged dir 0x400000 0x1000 0x100000 6 empty_vm three (omega arith) (omega arith)
      (omega arith) (λ q lt within. rw (empty-view q) refl) empty-Space

setupkvm-Built_example :
    (pg : ℕ) × (pg ≢ 0)
    × Built
        (kernel_entry 0x80110000)
        pg
        (λ p. Apart p three)
        empty_vm
        (setupkvm 0x80110000 kalloc1 empty_vm)
setupkvm-Built_example =
    setupkvm-Built 0x80110000 (omega arith) (omega arith) refl empty_vm three three-Chain
      three-Frames

allocuvm-Grown_example :
    (m' : Vm) × (ys : List ℕ) × (allocuvm dir 0x400000 0x1000 empty_vm
      ≡ some (page_up (0x400000 + 0x1000), m'))
    × Grown dir 0x400000 1 empty_vm three m' ys
allocuvm-Grown_example =
    allocuvm-Grown dir 0x400000 0x1000 1 empty_vm three (omega arith) (omega arith) (omega arith)
      (omega arith) (λ q lt within. rw (empty-view q) refl) empty-Space

-- A parent with one page.
abbrev parent_word : ℕ → ℕ → ℕ
parent_word p i =
    if (p == dir) && (i == 0)
    then table - kbase + 7
    else if (p == table) && (i == 0)
    then page - kbase + 7
    else i + i

abbrev parent : Vm
parent = record { pages = three_pages; word = parent_word }

parent_entry :
    (q : ℕ)
    → (view parent_word dir q ≡ page - kbase + 7) ⊎ (present (view parent_word dir q) ≡ false)
unfolding view
parent_entry q = elim (Bool-cases (pdx q == 0)) [
  | inr ne ↦
      let hole : present (parent_word dir (pdx q)) ≡ false = ground arith in
      inr (rw (entry-absent parent_word (parent_word dir (pdx q)) q hole) refl)
  | inl e ↦
      let e' : pdx q ≡ 0 = ground arith in
      let at : entry parent_word (parent_word dir (pdx q)) q ≡ parent_word table (ptx q) =
        rw e' (entry-present parent_word (table - kbase + 7) q refl) in
      elim (Bool-cases (ptx q == 0)) [
        | inl f ↦ let f' : ptx q ≡ 0 = ground arith in inl (at ∙ rw f' refl)
        | inr nf ↦ inr (rw at (ground arith))
      ]
]

parent-IsParent : IsParent dir parent (λ p. Apart p three)
parent-IsParent = record {
  dir = ground arith;
  tables = λ i lt p. elim (Bool-cases (i == 0)) [
    | inl e ↦ let e' : i ≡ 0 = ground arith in rw e' (ground arith)
    | inr ne ↦ absurd (ground arith)
  ];
  pages = pages_apart;
}
  where
    pages_apart :
        (q : ℕ)
        → q < kbase
        → present (view parent_word dir q) ≡ true
        → Apart (p2v (pte_addr (view parent_word dir q))) three
    pages_apart q lt p = elim (parent_entry q) [
      | inl e ↦ rw e (ground arith)
      | inr none_there ↦ absurd (ground (arith, none_there, p))
    ]

copyuvm-Forked_example :
    Forked 0x80110000 dir parent (λ p. Apart p three) (copyuvm 0x80110000 dir parent)
copyuvm-Forked_example =
    copyuvm-Forked 0x80110000 dir parent three (omega arith) (omega arith) refl three-Chain
      three-Frames parent-IsParent

its_pages : space_pages parent_word dir ≡ page ∷ table ∷ dir ∷ []
unfolding table_pages entry_pages
its_pages = refl

parent-Freeing : Freeing parent parent (page ∷ table ∷ dir ∷ []) three
parent-Freeing = record {
  free = three-Chain;
  apart = ground arith;
  pages = (
    (omega arith, record { aligned = refl; above = omega arith; below = omega arith }),
    (
      (omega arith, record { aligned = refl; above = omega arith; below = omega arith }),
      ((omega arith, record { aligned = refl; above = omega arith; below = omega arith }), tt),
    ),
  );
  kept = (refl, (refl, (refl, tt)));
}

freevm-freed_example :
    (m' : Vm) × (freevm dir parent ≡ some m')
    × IsFree m'.pages (freed (space_pages parent_word dir) three)
freevm-freed_example =
    freevm-freed dir parent three
      (subst (λ l. Freeing parent parent l three) (sym its_pages) parent-Freeing)
