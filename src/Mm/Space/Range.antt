-- ===== src/Mm/Space/Range.antt =====
-- The loop of `mappages` of mm/vm.c over a range of pages.
use jix.Base.{
  ℕ, suc, ◌+◌, ◌-◌, ◌*◌, ◌/◌, ◌^◌, ◌≤◌, ◌<◌, ◌≡◌, refl, ◌∙◌, ◌≢◌, ◌⊎◌, inl, inr, true, false,
  Option, some, List, [], arith, ◌==◌, Bool-cases, length, ℤ, pos, minus_one, bit_or,
}
use jix.Mm.Pages.{page_size}
use jix.Mm.Vm.{Vm, present, pte_p}
use jix.Mm.Space.{view, IsSpace, Keeps, Keeps-trans}
use jix.Mm.Space.Map.{Maps}

-- The address `q` is in one of the `n` pages from the one of `a` on.
abbrev pub Inside : ℕ → ℕ → ℕ → Type 0
Inside a n q = (a / page_size ≤ q / page_size) × (q / page_size < a / page_size + n)

abbrev pub Outside : ℕ → ℕ → ℕ → Type 0
Outside a n q = (q / page_size < a / page_size) ⊎ (a / page_size + n ≤ q / page_size)

-- The entry that maps `q` where the page of `a` is mapped to `pa`.
abbrev pub entry_of : ℕ → ℕ → ℕ → ℕ → ℕ
entry_of a pa perm q = bit_or (bit_or (pa + (q / page_size - a / page_size) * page_size) perm) pte_p

abbrev pub Same : ℕ → ℕ → ℕ → Vm → Vm → Type 0
Same pg a n m m' = (q : ℕ) → q < 2 ^ 32 → Outside a n q → view m'.word pg q ≡ view m.word pg q

abbrev pub Covers : ℕ → ℕ → ℕ → ℕ → ℕ → Vm → Type 0
Covers pg a pa perm n m' =
    (q : ℕ) → q < 2 ^ 32 → Inside a n q → view m'.word pg q ≡ entry_of a pa perm q

abbrev pub IsClear : ℕ → ℕ → ℕ → Vm → Type 0
IsClear pg a n m = (q : ℕ) → q < 2 ^ 32 → Inside a n q → present (view m.word pg q) ≡ false

-- The loop maps all `n` pages, or stops because no page is free, which `n` free pages rule out.
pub data Ranged (pg a pa perm n : ℕ) (m : Vm) (xs : List ℕ) : Option (ℤ × Vm) → Type 0 where
  mapped :
      (m' : Vm) (ys : List ℕ)
      → IsSpace m'.pages (m'.word pg) pg ys
      → length xs ≤ length ys + n
      → Covers pg a pa perm n m'
      → Same pg a n m m'
      → Keeps pg m xs m' ys
      → Ranged pg a pa perm n m xs (some (pos 0, m'))
  short :
      (m' : Vm)
      → IsSpace m'.pages (m'.word pg) pg []
      → length xs < n
      → Same pg a n m m'
      → Keeps pg m xs m' []
      → Ranged pg a pa perm n m xs (some (minus_one, m'))

Maps-here :
    (pg a pte q : ℕ) (m m' : Vm)
    → Maps pg a pte m m'
    → q < 2 ^ 32
    → q / page_size ≡ a / page_size
    → view m'.word pg q ≡ pte
Maps-here pg a pte q m m' h lt e =
    let same : (q / page_size == a / page_size) ≡ true = ground arith in rw same at (h q lt)

pub Maps-there :
    (pg a pte q : ℕ) (m m' : Vm)
    → Maps pg a pte m m'
    → q < 2 ^ 32
    → q / page_size ≢ a / page_size
    → view m'.word pg q ≡ view m.word pg q
Maps-there pg a pte q m m' h lt ne =
    let other : (q / page_size == a / page_size) ≡ false = ground arith in rw other at (h q lt)

-- The first page of a range.
entry_of-first :
    (a pa perm q : ℕ)
    → q / page_size ≡ a / page_size
    → bit_or (bit_or pa perm) pte_p ≡ entry_of a pa perm q
entry_of-first a pa perm q e =
    let none_on : pa + (q / page_size - a / page_size) * page_size ≡ pa = omega arith in
    rw none_on refl

-- The pages after it.
entry_of-next :
    (a pa perm q : ℕ)
    → a / page_size < q / page_size
    → entry_of (a + page_size) (pa + page_size) perm q ≡ entry_of a pa perm q
entry_of-next a pa perm q lt =
    let e : pa + page_size + (q / page_size - (a + page_size) / page_size) * page_size
        ≡ pa + (q / page_size - a / page_size) * page_size =
      omega arith in
    rw e refl

-- One page in front of a range.
pub Ranged-suc :
    (pg a pa perm n : ℕ) (m m1 : Vm) (xs ys : List ℕ) (r : Option (ℤ × Vm))
    → length xs ≤ length ys + 1
    → Maps pg a (bit_or (bit_or pa perm) pte_p) m m1
    → Keeps pg m xs m1 ys
    → Ranged pg (a + page_size) (pa + page_size) perm n m1 ys r
    → Ranged pg a pa perm (suc n) m xs r
Ranged-suc pg a pa perm n m m1 xs ys _ len first keeps (short m' h few same more) =
    short m' h (omega arith)
      (λ q lt out. same q lt (omega arith) ∙ Maps-there pg a _ q m m1 first lt (omega arith))
      (Keeps-trans pg m m1 m' xs ys [] keeps more)
Ranged-suc pg a pa perm n m m1 xs ys _ len first keeps (mapped m' zs h more all same on) =
    mapped m' zs h (omega arith) go
      (λ q lt out. same q lt (omega arith) ∙ Maps-there pg a _ q m m1 first lt (omega arith))
      (Keeps-trans pg m m1 m' xs ys zs keeps on)
  where
    go : Covers pg a pa perm (suc n) m'
    go q lt within = elim (Bool-cases (q / page_size == a / page_size)) [
      | inl e ↦
          let e' : q / page_size ≡ a / page_size = ground arith in
          same q lt (omega arith)
          ∙ Maps-here pg a _ q m m1 first lt e'
          ∙ entry_of-first a pa perm q e'
      | inr ne ↦
          let after : a / page_size < q / page_size = ground arith in
          all q lt (omega arith) ∙ entry_of-next a pa perm q after
    ]

-- A range of no page.
pub Ranged-zero :
    (pg a pa perm : ℕ) (m : Vm) (xs : List ℕ)
    → IsSpace m.pages (m.word pg) pg xs
    → Ranged pg a pa perm 0 m xs (some (pos 0, m))
Ranged-zero pg a pa perm m xs h =
    mapped m xs h (omega arith) (λ q l within. absurd (omega arith)) (λ q l out. refl)
      (λ p own. (own, refl))

-- A range of no page maps to anything.
pub Ranged-any :
    (pg a pa pa' perm : ℕ) (m : Vm) (xs : List ℕ) (r : Option (ℤ × Vm))
    → Ranged pg a pa perm 0 m xs r
    → Ranged pg a pa' perm 0 m xs r
Ranged-any pg a pa pa' perm m xs _ (short m' h few same keeps) = absurd (omega arith)
Ranged-any pg a pa pa' perm m xs _ (mapped m' ys h more all same keeps) =
    mapped m' ys h more (λ q l within. absurd (omega arith)) same keeps
