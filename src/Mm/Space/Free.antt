-- ===== src/Mm/Space/Free.antt =====
-- `freevm` of mm/vm.c: the pages that it gives back.
use jix.Base.{
  ℕ, zero, suc, ◌+◌, ◌*◌, ◌^◌, ◌≡◌, refl, sym, ◌∙◌, subst, ◌≢◌, some, List, [], ◌∷◌, ltb,
  if◌then◌else◌, update, update-ne,
}
use mathlib.Core.Option.{some-injective}
use jix.Mm.Pages.{Pages, kbase, p2v}
use jix.Mm.FreeList.{Apart, IsPage, IsFree, kfree-IsFree, kfree_accepts}
use jix.Mm.Vm.{Vm, present, pte_addr, table_of, fill, kfree1}

abbrev pub All : (ℕ → Type 0) → List ℕ → Type 0
All P [] = Unit {0}
All P (x ∷ xs) = P x × All P xs

-- Each page of `R` differs from those after it, and from those of `F`.
abbrev pub AllApart : List ℕ → List ℕ → Type 0
AllApart [] F = Unit {0}
AllApart (p ∷ R) F = Apart p R × Apart p F × AllApart R F

abbrev pub AllPages : Pages → List ℕ → Type 0
AllPages g R = All (λ p. (p ≢ 0) × IsPage g p) R

-- The list of free pages when those of `R` have been freed, the first of them first.
abbrev pub freed : List ℕ → List ℕ → List ℕ
freed [] F = F
freed (p ∷ R) F = freed R (p ∷ F)

-- The pages of the `n` entries from `j` on of a table that is `w`, and then `R`.
unfoldable pub entry_pages : (ℕ → ℕ) → ℕ → ℕ → List ℕ → List ℕ
entry_pages w zero j R = R
entry_pages w (suc n) j R =
    let rest = entry_pages w n (j + 1) R in
    if present (w j) then p2v (pte_addr (w j)) ∷ rest else rest

-- The pages of a table below `KBASE`, then the table, for the `n` entries from `i` on of the directory.
unfoldable pub table_pages : (ℕ → ℕ → ℕ) → (ℕ → ℕ) → ℕ → ℕ → List ℕ → List ℕ
table_pages word d zero i R = R
table_pages word d (suc n) i R =
    let rest = table_pages word d n (i + 1) R in
    if present (d i)
    then if ltb (i * 2 ^ 22) kbase
      then entry_pages (word (table_of (d i))) 1024 0 (table_of (d i) ∷ rest)
      else table_of (d i) ∷ rest
    else rest

-- All pages of the address space: those mapped below `KBASE`, the tables and the directory.
abbrev pub space_pages : (ℕ → ℕ → ℕ) → ℕ → List ℕ
space_pages word pg = table_pages word (word pg) 1024 0 (pg ∷ [])

-- The pages of `R` are still to be freed, and as they were in `m0`; those of `F` are free.
pub record Freeing (m0 m : Vm) (R F : List ℕ) : Type 0 where
  pub free : IsFree m.pages F
  pub apart : AllApart R F
  pub pages : AllPages m.pages R
  pub kept : All (λ p. m.word p ≡ m0.word p) R

AllApart-cons : (v : ℕ) (R F : List ℕ) → Apart v R → AllApart R F → AllApart R (v ∷ F)
AllApart-cons v [] F out h = tt
AllApart-cons v (p ∷ R) F (ne, out) (a, b, h) =
    (a, ((λ e. ne (sym e)), b), AllApart-cons v R F out h)

AllPages-next :
    (g : Pages) (v f : ℕ) (R : List ℕ)
    → AllPages g R
    → AllPages (record g { next = update g.next v g.free_list; free_list = f }) R
AllPages-next g v f [] h = tt
AllPages-next g v f (p ∷ R) ((nz, ok), h) = (
  (nz, record { aligned = ok.aligned; above = ok.above; below = ok.below }),
  AllPages-next g v f R h,
)

kept-fill :
    (m0 m : Vm) (v w : ℕ) (R : List ℕ)
    → Apart v R
    → All (λ p. m.word p ≡ m0.word p) R
    → All (λ p. update m.word v (λ i. w) p ≡ m0.word p) R
kept-fill m0 m v w [] out h = tt
kept-fill m0 m v w (p ∷ R) (ne, out) (same, h) =
    (update-ne m.word v p (λ i. w) ne ∙ same, kept-fill m0 m v w R out h)

-- One page is freed.
pub kfree1-Freeing :
    (m0 m : Vm) (v : ℕ) (R F : List ℕ)
    → Freeing m0 m (v ∷ R) F
    → (m' : Vm) × (kfree1 v m ≡ some m') × Freeing m0 m' R (v ∷ F)
unfolding kfree1
kfree1-Freeing m0 m v R F h =
    let (nz, ok) = h.pages.0 in
    let g : Pages = record m.pages {
      next = update m.pages.next v m.pages.free_list;
      free_list = v;
    } in
    let e = kfree_accepts v m.pages ok in
    let (g', e', free) = kfree-IsFree v m.pages F nz ok h.apart.1 h.free in
    let same : g' ≡ g = some-injective g' g (sym e' ∙ e) in
    (
      fill v 0x01010101 (record m { pages = g }),
      rw (e, kfree1) refl,
      record {
        free = subst (λ k. IsFree k (v ∷ F)) same free;
        apart = AllApart-cons v R F h.apart.0 h.apart.2;
        pages = AllPages-next m.pages v v R h.pages.1;
        kept = kept-fill m0 m v 0x01010101 R h.apart.0 h.kept.1;
      },
    )
