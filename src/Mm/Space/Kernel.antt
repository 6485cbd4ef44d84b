-- ===== src/Mm/Space/Kernel.antt =====
-- The kernel's half of an address space: `setupkvm` of mm/vm.c.
use jix.Base.{
  ℕ, ◌+◌, ◌-◌, ◌*◌, ◌/◌, ◌%◌, ◌^◌, ◌≤◌, ◌<◌, ◌≡◌, refl, ◌∙◌, ◌⊎◌, inl, inr, Bool, true, false, ◌&&◌,
  Option, none, some, List, [], ◌∷◌, arith, ltb, leb, if◌then◌else◌, Bool-cases, ℤ, is_neg,
}
use jix.Mm.Pages.{page_size}
use jix.Mm.FreeList.{Chain}
use jix.Mm.Vm.{Vm, present, page_down, kalloc1, KMap, map_kernel}
use jix.Mm.Space.{view, IsSpace, IsOwn}
use jix.Mm.Space.Range.{Inside, Outside, entry_of, IsClear, Ranged, mapped, short}
use jix.Mm.Space.MapPages.{mappages-Ranged}

abbrev pub size_of : KMap → ℕ
size_of k = (k.phys_end + 2 ^ 32 - k.phys_start) % 2 ^ 32

abbrev pub pages_of : KMap → ℕ
pages_of k = (k.virt + size_of k - 1) / page_size - k.virt / page_size + 1

abbrev pub covers : KMap → ℕ → Bool
covers k q =
    leb (k.virt / page_size) (q / page_size)
    && ltb (q / page_size) (k.virt / page_size + pages_of k)

-- What the addresses mean once the range `k` is mapped, and `f` said what they mean before.
abbrev pub over : KMap → (ℕ → ℕ) → ℕ → ℕ
over k f q = if covers k q then entry_of k.virt k.phys_start k.perm q else f q

abbrev pub over_all : List KMap → (ℕ → ℕ) → ℕ → ℕ
over_all [] f q = f q
over_all (k ∷ ks) f q = over_all ks (over k f) q

-- The ranges lie within the address spaces and do not overlap.
abbrev pub Fits : List KMap → (ℕ → ℕ) → Type 0
Fits [] f = Unit {0}
Fits (k ∷ ks) f =
    (k.virt % page_size ≡ 0)
    × (0 < size_of k)
    × (k.virt + size_of k ≤ 2 ^ 32)
    × (k.phys_start + pages_of k * page_size ≤ 2 ^ 32)
    × ((q : ℕ) → q < 2 ^ 32 → covers k q ≡ true → present (f q) ≡ false)
    × Fits ks (over k f)

-- A directory has been made in which the addresses mean `f`, and the pages of `Own` are as they were
-- in `m` and none of its own; or no page is left.
pub data Built (f : ℕ → ℕ) (pg : ℕ) (Own : ℕ → Type 0) (m : Vm) : Option (ℕ × Vm) → Type 0 where
  built :
      (m' : Vm) (ys : List ℕ)
      → IsSpace m'.pages (m'.word pg) pg ys
      → ((q : ℕ) → q < 2 ^ 32 → view m'.word pg q ≡ f q)
      → ((p : ℕ) → Own p → IsOwn (m'.word pg) pg ys p × (m'.word p ≡ m.word p))
      → Built f pg Own m (some (pg, m'))
  gave_up : (m' : Vm) → Chain m'.pages.next m'.pages.free_list [] → Built f pg Own m (some (0, m'))

pub Built-map :
    (f g : ℕ → ℕ) (pg : ℕ) (Own Own' : ℕ → Type 0) (m m1 : Vm) (r : Option (ℕ × Vm))
    → ((q : ℕ) → q < 2 ^ 32 → f q ≡ g q)
    → ((p : ℕ) → Own' p → Own p × (m1.word p ≡ m.word p))
    → Built f pg Own m1 r
    → Built g pg Own' m r
Built-map f g pg Own Own' m m1 _ same weaker (gave_up m' h) = gave_up m' h
Built-map f g pg Own Own' m m1 _ same weaker (built m' ys h means keeps) =
    built m' ys h (λ q lt. means q lt ∙ same q lt)
      λ p own.
        let (own1, first) = weaker p own in let (own2, next) = keeps p own1 in (own2, next ∙ first)

abbrev pub Means : ℕ → (ℕ → ℕ) → Vm → Type 0
Means pg f m = (q : ℕ) → q < 2 ^ 32 → view m.word pg q ≡ f q

covers-Inside : (k : KMap) (q : ℕ) → Inside k.virt (pages_of k) q → covers k q ≡ true
covers-Inside k q (lo, hi) = go (pages_of k) (k.virt / page_size) lo hi
  where
    go :
        (n v : ℕ)
        → v ≤ q / page_size
        → q / page_size < v + n
        → (leb v (q / page_size) && ltb (q / page_size) (v + n)) ≡ true
    go n v lo hi = ground arith

covers-Outside : (k : KMap) (q : ℕ) → covers k q ≡ false → Outside k.virt (pages_of k) q
covers-Outside k q e = go (pages_of k) (k.virt / page_size) e
  where
    go :
        (n v : ℕ)
        → (leb v (q / page_size) && ltb (q / page_size) (v + n)) ≡ false
        → (q / page_size < v) ⊎ (v + n ≤ q / page_size)
    go n v e = ground arith

covers-true : (k : KMap) (q : ℕ) → covers k q ≡ true → Inside k.virt (pages_of k) q
covers-true k q e = go (pages_of k) (k.virt / page_size) e
  where
    go :
        (n v : ℕ)
        → (leb v (q / page_size) && ltb (q / page_size) (v + n)) ≡ true
        → (v ≤ q / page_size) × (q / page_size < v + n)
    go n v e = ground arith

-- The next part of the loop of `setupkvm`.
abbrev pub Continues : (f : ℕ → ℕ) → List KMap → ℕ → Type 0
Continues f ks pg =
    (m : Vm) (xs : List ℕ)
    → IsSpace m.pages (m.word pg) pg xs
    → Means pg f m
    → Built (over_all ks f) pg (IsOwn (m.word pg) pg xs) m (map_kernel ks kalloc1 pg m)

pub map_kernel-Built : (ks : List KMap) (f : ℕ → ℕ) (pg : ℕ) → Fits ks f → Continues f ks pg
unfolding map_kernel
map_kernel-Built [] f pg fits m xs h means = built m xs h means (λ p own. (own, refl))
map_kernel-Built (k ∷ ks) f pg (al, nz, hi, fit, clear, rest) m xs h means =
    let next = map_kernel-Built ks (over k f) pg rest in
    let low : page_down k.virt ≡ k.virt = omega arith in
    let empty : IsClear pg k.virt (pages_of k) m =
      λ q lt within. rw (means q lt) (clear q lt (covers-Inside k q within)) in
    let ranged =
      mappages-Ranged pg k.virt (size_of k) k.phys_start k.perm m xs nz hi fit (rw low empty) h in
    go next _ (rw low at ranged)
  where
    go :
        Continues (over k f) ks pg
        → (r : Option (ℤ × Vm)) → Ranged pg k.virt k.phys_start k.perm (pages_of k) m xs r
        → Built (over_all ks (over k f)) pg (IsOwn (m.word pg) pg xs) m (elim r [
          | none ↦ none
          | some s ↦ if is_neg s.0 then some (0, s.1) else map_kernel ks kalloc1 pg s.1
        ])
    go next _ (short m' h' few same keeps) = gave_up m' h'.free
    go next _ (mapped m' ys h' more all same keeps) =
        Built-map _ _ pg _ _ m m' _ (λ q lt. refl) keeps
          (next m' ys h' λ q lt. elim (Bool-cases (covers k q)) [
            | inl e ↦ let within = covers-true k q e in rw e (all q lt within)
            | inr ne ↦ let out = covers-Outside k q ne in rw ne (same q lt out ∙ means q lt)
          ])
