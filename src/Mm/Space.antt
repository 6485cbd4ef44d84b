-- ===== src/Mm/Space.antt =====
-- What a page directory of mm/vm.c means, and when directory, tables and free pages are apart.
pub mod Walk
pub mod Map
pub mod Range
pub mod Loop
pub mod MapPages
pub mod Kernel
pub mod Entries
pub mod SetUp
pub mod Place
pub mod Child
pub mod Copy
pub mod Grow
pub mod Free
pub mod FreeAll
use jix.Base.{
  ℕ, ◌+◌, ◌-◌, ◌/◌, ◌%◌, ◌^◌, ◌≤◌, ◌<◌, ◌≡◌, sym, ◌∙◌, ◌≢◌, inl, inr, true, false, List, [], ◌∷◌,
  arith, ◌==◌, if◌then◌else◌, Bool-cases, bit_or, bit_or-one, bit_or_two, bit_or_four,
}
use jix.Mm.Pages.{Pages, page_size, kbase, v2p}
use jix.Mm.FreeList.{Chain, Apart}
use jix.Mm.Vm.{Vm, pdx, ptx, present, table_of, table_entry}

-- The entry for `va` where the directory has the entry `pde`, 0 where there is no page table.
unfoldable pub entry : (ℕ → ℕ → ℕ) → ℕ → ℕ → ℕ
entry t pde va = if present pde then t (table_of pde) (ptx va) else 0

-- The entry that the processor finds for an address.
unfoldable pub view : (ℕ → ℕ → ℕ) → ℕ → ℕ → ℕ
view t pg va = entry t (t pg (pdx va)) va

pub entry-present :
    (t : ℕ → ℕ → ℕ) (w va : ℕ) → present w ≡ true → entry t w va ≡ t (table_of w) (ptx va)
unfolding entry
entry-present t w va p = rw p

pub entry-absent : (t : ℕ → ℕ → ℕ) (w va : ℕ) → present w ≡ false → entry t w va ≡ 0
unfolding entry
entry-absent t w va p = rw p

pub entry-same :
    (t u : ℕ → ℕ → ℕ) (w va : ℕ)
    → (present w ≡ true → t (table_of w) (ptx va) ≡ u (table_of w) (ptx va))
    → entry t w va ≡ entry u w va
entry-same t u w va same = elim (Bool-cases (present w)) [
  | inl p ↦ entry-present t w va p ∙ same p ∙ sym (entry-present u w va p)
  | inr n ↦ entry-absent t w va n ∙ sym (entry-absent u w va n)
]

abbrev pub IsFrame : ℕ → Type 0
IsFrame x = (x % page_size ≡ 0) × (kbase ≤ x) × (x < 2 ^ 32)

abbrev pub Frames : List ℕ → Type 0
Frames [] = Unit {0}
Frames (x ∷ xs) = IsFrame x × Frames xs

-- The tables of the directory `d` at `pg` are pages of their own, and none of them is free.
pub record IsSpace (g : Pages) (d : ℕ → ℕ) (pg : ℕ) (xs : List ℕ) : Type 0 where
  pub free : Chain g.next g.free_list xs
  pub frames : Frames xs
  pub dir : Apart pg xs
  pub tables :
      (i : ℕ) → i < 1024 → present (d i) ≡ true → (table_of (d i) ≢ pg) × Apart (table_of (d i)) xs
  pub single :
      (i j : ℕ)
      → i < 1024
      → j < 1024
      → present (d i) ≡ true
      → present (d j) ≡ true
      → i ≢ j
      → table_of (d i) ≢ table_of (d j)

-- The page `p` is neither the directory, nor one of its tables, nor free.
pub record IsOwn (d : ℕ → ℕ) (pg : ℕ) (xs : List ℕ) (p : ℕ) : Type 0 where
  pub not_dir : p ≢ pg
  pub not_free : Apart p xs
  pub not_table : (i : ℕ) → i < 1024 → present (d i) ≡ true → table_of (d i) ≢ p

-- Such a page keeps its contents, and stays such a page.
abbrev pub Keeps : ℕ → Vm → List ℕ → Vm → List ℕ → Type 0
Keeps pg m xs m' ys =
    (p : ℕ) → IsOwn (m.word pg) pg xs p → IsOwn (m'.word pg) pg ys p × (m'.word p ≡ m.word p)

pub Keeps-trans :
    (pg : ℕ) (m m1 m2 : Vm) (xs ys zs : List ℕ)
    → Keeps pg m xs m1 ys
    → Keeps pg m1 ys m2 zs
    → Keeps pg m xs m2 zs
Keeps-trans pg m m1 m2 xs ys zs first next p own =
    let (own1, same1) = first p own in let (own2, same2) = next p own1 in (own2, same2 ∙ same1)

pub table_entry-present : (x : ℕ) → present (table_entry x) ≡ true
unfolding table_entry
table_entry-present x =
    let a = bit_or-one (v2p x) in
    let b = bit_or_two (bit_or (v2p x) 1) in
    let c = bit_or_four (bit_or (bit_or (v2p x) 1) 2) in ground arith

pub table_entry-table : (x : ℕ) → IsFrame x → table_of (table_entry x) ≡ x
unfolding table_entry
table_entry-table x (al, lo, hi) =
    let a = bit_or-one (v2p x) in
    let b = bit_or_two (bit_or (v2p x) 1) in
    let c = bit_or_four (bit_or (bit_or (v2p x) 1) 2) in
    let low : v2p x ≡ x - kbase = omega arith in
    let all : table_entry x ≡ x - kbase + 7 = omega arith in omega arith

-- Two addresses share their entry when they are on the same page.
pub same_page :
    (a b : ℕ)
    → a < 2 ^ 32
    → b < 2 ^ 32
    → pdx a ≡ pdx b
    → (ptx a == ptx b) ≡ (a / page_size == b / page_size)
same_page a b la lb d = elim (Bool-cases (ptx a == ptx b)) [
  | inl e ↦ let same : a / page_size ≡ b / page_size = ground arith in ground arith
  | inr ne ↦ let other : a / page_size ≢ b / page_size = ground arith in ground arith
]

pub other_page : (a b : ℕ) → (pdx a == pdx b) ≡ false → (a / page_size == b / page_size) ≡ false
other_page a b ne = let other : a / page_size ≢ b / page_size = ground arith in ground arith
